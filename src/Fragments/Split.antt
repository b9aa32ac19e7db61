-- ===== src/Fragments/Split.antt =====
-- `split_text_for_meshtastic` as a whole.
use meshtastic_matrix_relay.Prelude.{
  ℕ, zero, suc, ◌+◌, ◌≤◌, ◌≡◌, ◌≢◌, refl, ap, subst, ◌⊎◌, true, List, [], ◌∷◌, arith, leb, ◌==◌,
  if◌then◌else◌, length, Bool-cases, inl, inr, Result, ok, err, some, ==_iff, ok_of_bind,
}
use meshtastic_matrix_relay.Text.{Text, utf8_len, visible}
use meshtastic_matrix_relay.Text.Laws.{utf8_len-append}
use meshtastic_matrix_relay.Fragments.{
  StrOps, Settings, SplitError, suffix_too_large, suffix_len, split_body_chunks, render_from,
  render, fragment_rounds, optimize_text_with_homoglyphs, split_enabled, split_text_for_meshtastic,
}
use meshtastic_matrix_relay.Fragments.Loop.{
  HasRoom, ChunksFit, split_body_chunks-Ends, split_body_chunks-visible, split_body_chunks-Fits,
  split_body_chunks-length,
}
use mathlib.Core.List.{flatten}

module _ (py : StrOps) (s : Settings) where
  open py use {is_space}

  -- Every fragment fits into a payload; only the last may be longer, by its suffix.
  abbrev pub FragmentsFit : ℕ → ℕ → List Text → Type 0
  FragmentsFit total index [] = Unit
  FragmentsFit total index (f ∷ fs) =
      (utf8_len f
        ≤ s.max_payload_bytes + (if index == total then suffix_len py s index total else 0))
      × FragmentsFit total (suc index) fs

  render_from-FragmentsFit :
      (total index : ℕ) (chunks : List Text)
      → ChunksFit py s total index chunks
      → FragmentsFit total index (render_from py s index total chunks)
  unfolding render_from utf8_len
  render_from-FragmentsFit total index [] h = tt
  render_from-FragmentsFit total index (chunk ∷ chunks) h = (
    elim (Bool-cases (index == total)) [
      | inl e ↦ rw (e, utf8_len-append) (rw utf8_len-append (omega (arith, h.0)))
      | inr e ↦ rw (e, utf8_len-append) (rw utf8_len-append (omega (arith, h.0)))
    ],
    render_from-FragmentsFit total (suc index) chunks h.1,
  )

  -- In none of the first `k` rounds from the estimate `total` does the number of chunks agree
  -- with the estimate that their prefixes were measured with.
  abbrev pub NeverAgrees : ℕ → Text → ℕ → Type 0
  NeverAgrees zero text total = Unit
  NeverAgrees (suc k) text total =
      (chunks : List Text) × (split_body_chunks py s text total ≡ ok chunks)
      × (length chunks ≢ total)
      × NeverAgrees k text (length chunks)

  -- What the rounds return is a rendering of chunks that show the text, and it fits.
  abbrev pub IsSplit : Text → List Text → Type 0
  IsSplit text fragments =
      (chunks : List Text) × (fragments ≡ render py s chunks)
      × (visible is_space (flatten chunks) ≡ visible is_space text)

  length-render_from :
      (total index : ℕ) (chunks : List Text)
      → length (render_from py s index total chunks) ≡ length chunks
  unfolding render_from
  length-render_from total index [] = refl
  length-render_from total index (chunk ∷ chunks) =
      ap suc (length-render_from total (suc index) chunks)

  abbrev Outcome : ℕ → Text → ℕ → List Text → Type 0
  Outcome k text total fragments =
      IsSplit text fragments
      × (FragmentsFit (length fragments) 1 fragments ⊎ NeverAgrees k text total)

  agreed :
      (k : ℕ) (text : Text) (total : ℕ) (chunks : List Text)
      → HasRoom py s (suc (length text))
      → total ≤ suc (length text)
      → split_body_chunks py s text total ≡ ok chunks
      → length chunks ≡ total
      → Outcome k text total (render py s chunks)
  agreed k text total chunks room t e same = (
    (chunks, refl, split_body_chunks-visible py s text total chunks e),
    inl (
        rw (length-render_from (length chunks) 1 chunks) (
          render_from-FragmentsFit (length chunks) 1 chunks
            (rw same (split_body_chunks-Fits py s text room total chunks t e)))),
  )

  fragment_rounds_lem :
      (k : ℕ) (text : Text) (total : ℕ) (before fragments : List Text)
      → HasRoom py s (suc (length text))
      → total ≤ suc (length text)
      → (k ≡ 0 → IsSplit text before)
      → fragment_rounds py s k text total before ≡ ok fragments
      → Outcome k text total fragments
  unfolding fragment_rounds
  fragment_rounds_lem zero text total before fragments room t at_end h =
      (subst (IsSplit text) (cc) (at_end refl), inr tt)
  fragment_rounds_lem (suc k) text total before fragments room t at_end h =
      let (chunks, h', e) = ok_of_bind _ (split_body_chunks py s text total) h in
      elim (Bool-cases (length chunks == total)) [
        | inl same ↦
            subst (Outcome (suc k) text total) (cc (rw same at h'))
              (agreed (suc k) text total chunks room t e ((==_iff (length chunks) total).0 same))
        | inr other ↦
            let (split, result) =
              fragment_rounds_lem k text (length chunks) (render py s chunks) fragments room
                (omega (arith, split_body_chunks-length py s text total chunks e))
                (λ _. (chunks, refl, split_body_chunks-visible py s text total chunks e))
                (rw other at h') in
            (
              split,
              elim result [
                | inl fits ↦ inl fits
                | inr never ↦ inr (chunks, e, (ground arith), never)
              ],
            )
      ]

  -- The text that is split: `text` itself, or with its Cyrillic look-alikes replaced.
  abbrev pub sent_text : Text → Text
  sent_text text = if s.homoglyph_optimization then optimize_text_with_homoglyphs text else text

  split_enabled_lem :
      (text : Text) (fragments : List Text)
      → HasRoom py s (suc (length (sent_text text)))
      → split_enabled py s text ≡ ok fragments
      → ((fragments ≡ sent_text text ∷ []) × (utf8_len (sent_text text) ≤ s.max_payload_bytes))
        ⊎ Outcome 8 (sent_text text) 1 fragments
  unfolding split_enabled
  split_enabled_lem text fragments room h =
      elim (Bool-cases (leb (utf8_len (sent_text text)) s.max_payload_bytes)) [
        | inl short ↦ inl (cc (rw short at h), ground arith)
        | inr long ↦ inr (
            fragment_rounds_lem 8 (sent_text text) 1 (sent_text text ∷ []) fragments room
              (omega arith) (λ e. absurd (omega arith)) (rw long at h))
      ]

  -- If every prefix of an index up to the number of characters leaves room for a character, each fragment of a successful split fits into
  -- `max_payload_bytes`, the last one up to its suffix, unless in none of the eight rounds the
  -- number of chunks agreed with the estimate.
  pub split_text_fits :
      (text : Text) (fragments : List Text)
      → HasRoom py s (suc (length (sent_text text)))
      → s.enabled ≡ true
      → split_text_for_meshtastic py text (some s) ≡ ok fragments
      → FragmentsFit (length fragments) 1 fragments ⊎ NeverAgrees 8 (sent_text text) 1
  unfolding split_text_for_meshtastic
  split_text_fits text fragments room on h =
      elim (split_enabled_lem text fragments room (simp on at h)) [
        | inl (one, short) ↦ inl (rw one (omega arith, tt))
        | inr outcome ↦ outcome.1
      ]

  -- A successful split is the text alone, or a rendering of chunks that together hold every
  -- visible character of the text, in order.
  pub split_text_for_meshtastic-IsSplit :
      (text : Text) (fragments : List Text)
      → HasRoom py s (suc (length (sent_text text)))
      → s.enabled ≡ true
      → split_text_for_meshtastic py text (some s) ≡ ok fragments
      → (fragments ≡ sent_text text ∷ []) ⊎ IsSplit (sent_text text) fragments
  unfolding split_text_for_meshtastic
  split_text_for_meshtastic-IsSplit text fragments room on h =
      elim (split_enabled_lem text fragments room (simp on at h)) [
        | inl (one, short) ↦ inl one
        | inr outcome ↦ inr outcome.0
      ]

  abbrev Ends : Result SplitError (List Text) → Type 0
  Ends r = ((fragments : List Text) × (r ≡ ok fragments)) ⊎ (r ≡ err suffix_too_large)

  fragment_rounds-Ends :
      (k : ℕ) (text : Text) (total : ℕ) (before : List Text)
      → Ends (fragment_rounds py s k text total before)
  unfolding fragment_rounds
  fragment_rounds-Ends zero text total before = inl (before, refl)
  fragment_rounds-Ends (suc k) text total before = elim (split_body_chunks-Ends py s text total) [
    | inl (chunks, e) ↦ elim (Bool-cases (length chunks == total)) [
      | inl same ↦ rw (e, same) (inl (render py s chunks, refl))
      | inr other ↦ rw (e, other) (fragment_rounds-Ends k text (length chunks) (render py s chunks))
    ]
    | inr e ↦ rw e (inr refl)
  ]

  -- The split always comes to an end, with fragments or with the error that the suffix is too
  -- large; the error about the prefix is never raised.
  pub split_text_ends :
      (text : Text)
      → ((fragments : List Text) × (split_text_for_meshtastic py text (some s) ≡ ok fragments))
        ⊎ (split_text_for_meshtastic py text (some s) ≡ err suffix_too_large)
  unfolding split_text_for_meshtastic split_enabled
  split_text_ends text = elim (Bool-cases s.enabled) [
    | inl on ↦ elim (Bool-cases (leb (utf8_len (sent_text text)) s.max_payload_bytes)) [
      | inl short ↦ simp (on, short) (inl (sent_text text ∷ [], refl))
      | inr long ↦ simp (on, long) (fragment_rounds-Ends 8 (sent_text text) 1 (sent_text text ∷ []))
    ]
    | inr off ↦ simp off (inl (text ∷ [], refl))
  ]
