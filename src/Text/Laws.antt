-- ===== src/Text/Laws.antt =====
-- Lengths and visible characters of texts.
use meshtastic_matrix_relay.Prelude.{
  ℕ, zero, suc, ◌+◌, ◌≤◌, ◌≡◌, ◌↔◌, refl, ap, ◌∙◌, sym, Bool, true, ◌||◌, List, some, [], ◌∷◌, ◌++◌,
  arith, length, take, drop, take-append-drop,
}
use meshtastic_matrix_relay.Text.{
  Text, text_eq, mem_text, char_len, utf8_len, starts_with, rfind, lstrip, rstrip, strip, visible,
  keep_unless_blank,
}

pub text_eq_iff : (s t : Text) → (text_eq s t ≡ true) ↔ (s ≡ t)
unfolding text_eq
text_eq_iff [] [] = ground arith
text_eq_iff [] (d ∷ t) = ground arith
text_eq_iff (c ∷ s) [] = ground arith
text_eq_iff (c ∷ s) (d ∷ t) = ground (arith, text_eq_iff s t)

pub text_eq_refl : (s : Text) → text_eq s s ≡ true
text_eq_refl s = (text_eq_iff s s).1 refl

pub mem_text-++ :
    (t : Text) (us vs : List Text) → mem_text t (us ++ vs) ≡ (mem_text t us || mem_text t vs)
unfolding mem_text
mem_text-++ t [] vs = refl
mem_text-++ t (u ∷ us) vs = ground (arith, mem_text-++ t us vs)

pub char_len_bounds : (c : ℕ) → (1 ≤ char_len c) × (char_len c ≤ 4)
unfolding char_len
char_len_bounds c = ground arith

pub utf8_len-append : (s t : Text) → utf8_len (s ++ t) ≡ utf8_len s + utf8_len t
unfolding utf8_len
utf8_len-append [] t = omega arith
utf8_len-append (c ∷ s) t = omega (arith, utf8_len-append s t)

pub utf8_len-take-drop : (n : ℕ) (s : Text) → utf8_len (take n s) + utf8_len (drop n s) ≡ utf8_len s
utf8_len-take-drop n s =
    sym (utf8_len-append (take n s) (drop n s)) ∙ ap utf8_len (take-append-drop n s)

-- More characters never take fewer bytes.
pub utf8_len-take_mono : (m n : ℕ) (s : Text) → m ≤ n → utf8_len (take m s) ≤ utf8_len (take n s)
unfolding utf8_len
utf8_len-take_mono zero n s h = omega arith
utf8_len-take_mono (suc m) zero s h = elim h [ ]
utf8_len-take_mono (suc m) (suc n) [] h = omega arith
utf8_len-take_mono (suc m) (suc n) (c ∷ s) h = omega (arith, utf8_len-take_mono m n s (omega arith))

pub starts_with-length : (s d : Text) → starts_with s d ≡ true → length d ≤ length s
unfolding starts_with
starts_with-length s [] h = omega arith
starts_with-length [] (p ∷ ps) h = cc
starts_with-length (c ∷ s) (p ∷ ps) h = ground (arith, starts_with-length s ps)

-- A match lies inside the text.
pub rfind-bound : (s d : Text) (p : ℕ) → rfind s d ≡ some p → p + length d ≤ length s
unfolding rfind
rfind-bound [] d p h = cc
rfind-bound (c ∷ s) d zero h = ground (arith, starts_with-length (c ∷ s) d)
rfind-bound (c ∷ s) d (suc p) h = ground (arith, rfind-bound s d p)

module _ (is_space : ℕ → Bool) where
  pub utf8_len-lstrip : (s : Text) → utf8_len (lstrip is_space s) ≤ utf8_len s
  unfolding utf8_len lstrip
  utf8_len-lstrip [] = omega arith
  utf8_len-lstrip (c ∷ s) = ground (arith, utf8_len-lstrip s)

  pub length-lstrip : (s : Text) → length (lstrip is_space s) ≤ length s
  unfolding lstrip
  length-lstrip [] = omega arith
  length-lstrip (c ∷ s) = ground (arith, length-lstrip s)

  visible-lstrip : (s : Text) → visible is_space (lstrip is_space s) ≡ visible is_space s
  unfolding lstrip
  visible-lstrip [] = refl
  visible-lstrip (c ∷ s) = ground (arith, visible-lstrip s)

  keep_lem :
      (c : ℕ) (s : Text)
      → (utf8_len (keep_unless_blank is_space c s) ≤ char_len c + utf8_len s)
        × (length (keep_unless_blank is_space c s) ≤ suc (length s))
        × (visible is_space (keep_unless_blank is_space c s) ≡ visible is_space (c ∷ s))
  unfolding utf8_len
  keep_lem c [] = ground arith
  keep_lem c (d ∷ s) = ground arith

  rstrip_lem :
      (s : Text)
      → (utf8_len (rstrip is_space s) ≤ utf8_len s)
        × (length (rstrip is_space s) ≤ length s)
        × (visible is_space (rstrip is_space s) ≡ visible is_space s)
  unfolding utf8_len rstrip
  rstrip_lem [] = (omega arith, omega arith, refl)
  rstrip_lem (c ∷ s) = ground (arith, rstrip_lem s, keep_lem c (rstrip is_space s))

  pub utf8_len-strip : (s : Text) → utf8_len (strip is_space s) ≤ utf8_len s
  unfolding strip
  utf8_len-strip s = omega (arith, (rstrip_lem (lstrip is_space s)).0, utf8_len-lstrip s)

  pub length-strip : (s : Text) → length (strip is_space s) ≤ length s
  unfolding strip
  length-strip s = omega (arith, (rstrip_lem (lstrip is_space s)).1, length-lstrip s)

  -- Stripping removes no visible character.
  pub visible-strip : (s : Text) → visible is_space (strip is_space s) ≡ visible is_space s
  unfolding strip
  visible-strip s = (rstrip_lem (lstrip is_space s)).2 ∙ visible-lstrip s

  pub visible-append :
      (s t : Text) → visible is_space (s ++ t) ≡ visible is_space s ++ visible is_space t
  visible-append [] t = refl
  visible-append (c ∷ s) t = ground (arith, visible-append s t)
