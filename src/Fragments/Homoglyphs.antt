-- ===== src/Fragments/Homoglyphs.antt =====
-- `optimize_text_with_homoglyphs` of matrix/fragments.py.
use meshtastic_matrix_relay.Prelude.{
  ℕ, suc, ◌≤◌, ◌≡◌, refl, List, [], ◌∷◌, arith, length, ap, ◌⊎◌, inl, inr,
}
use meshtastic_matrix_relay.Text.{Text, char_len, utf8_len}
use meshtastic_matrix_relay.Fragments.{translation, translate_from, optimize_text_with_homoglyphs}

-- Every entry of the table saves bytes, and its value is no key.
abbrev Shrinks : List (ℕ × ℕ) → Type 0
Shrinks [] = Unit
Shrinks ((k, v) ∷ table) =
    (char_len v ≤ char_len k) × (translate_from translation v ≡ v) × Shrinks table

translation-Shrinks : Shrinks translation
unfolding char_len translate_from
translation-Shrinks = ground arith

translate_from_lem :
    (table : List (ℕ × ℕ)) (c : ℕ)
    → Shrinks table
    → (char_len (translate_from table c) ≤ char_len c)
      × ((translate_from table c ≡ c)
          ⊎ (translate_from translation (translate_from table c) ≡ translate_from table c))
unfolding translate_from
translate_from_lem [] c h = ground arith
translate_from_lem ((k, v) ∷ table) c h = ground (arith, translate_from_lem table c h.2)

translate_idem :
    (c : ℕ)
    → translate_from translation (translate_from translation c) ≡ translate_from translation c
translate_idem c = elim (translate_from_lem translation c translation-Shrinks).1 [
  | inl same ↦ ap (translate_from translation) same
  | inr fixed ↦ fixed
]

-- Replacing look-alikes keeps the number of characters and never takes more bytes, and a second
-- replacement changes nothing.
optimize_text_lem :
    (text : Text)
    → (length (optimize_text_with_homoglyphs text) ≡ length text)
      × (utf8_len (optimize_text_with_homoglyphs text) ≤ utf8_len text)
      × (optimize_text_with_homoglyphs (optimize_text_with_homoglyphs text)
          ≡ optimize_text_with_homoglyphs text)
unfolding optimize_text_with_homoglyphs utf8_len
optimize_text_lem [] = (refl, omega arith, refl)
optimize_text_lem (c ∷ text) =
    let (len, bytes, idem) = optimize_text_lem text in
    (
      ap suc len,
      omega (arith, bytes, (translate_from_lem translation c translation-Shrinks).0),
      cc (translate_idem c, idem),
    )
