-- ===== src/Fragments/Chunks.antt =====
-- One chunk of `_take_chunk`: it fits, and the rest is shorter and loses nothing that is visible.
use meshtastic_matrix_relay.Prelude.{
  ℕ, zero, suc, ◌≤◌, ◌<◌, ◌≡◌, sym, ap, ◌∙◌, [], ◌∷◌, ◌++◌, max, arith, leb, length, take, drop,
  length-drop, take-append-drop, Bool-cases, inl, inr,
}
use meshtastic_matrix_relay.Text.{Text, utf8_len, strip, visible}
use meshtastic_matrix_relay.Text.Laws.{
  char_len_bounds, utf8_len-strip, length-strip, visible-strip, visible-append, utf8_len-take_mono,
}
use meshtastic_matrix_relay.Fragments.{
  StrOps, largest_char_boundary, best_text_cut, is_empty, cut_chunk, take_chunk,
}
use meshtastic_matrix_relay.Fragments.Boundary.{
  largest_char_boundary-IsBoundary, best_text_cut-bound,
}
use mathlib.Core.List.{append-nil}

module _ (py : StrOps) where
  open py use {is_space}

  strip_parts :
      (k : ℕ) (text : Text)
      → visible is_space (strip is_space (take k text))
          ++ visible is_space (strip is_space (drop k text))
        ≡ visible is_space text
  strip_parts k text =
      rw (visible-strip is_space (take k text), visible-strip is_space (drop k text))
        (sym (visible-append is_space (take k text) (drop k text))
          ∙ ap (visible is_space) (take-append-drop k text))

  cut_chunk-visible :
      (text : Text) (end capacity : ℕ)
      → visible is_space (cut_chunk py text end capacity).0
          ++ visible is_space (cut_chunk py text end capacity).1
        ≡ visible is_space text
  unfolding cut_chunk
  cut_chunk-visible text end capacity =
      elim (Bool-cases (is_empty (strip is_space (take (best_text_cut text end capacity) text)))) [
        | inl e ↦ rw e (strip_parts (max 1 end) text)
        | inr e ↦ rw e (strip_parts (best_text_cut text end capacity) text)
      ]

  -- Chunk and rest hold the visible characters of the text, in their order.
  pub take_chunk-visible :
      (text : Text) (capacity : ℕ)
      → visible is_space (take_chunk py text capacity).0
          ++ visible is_space (take_chunk py text capacity).1
        ≡ visible is_space text
  unfolding take_chunk
  take_chunk-visible text capacity = elim (Bool-cases (leb (utf8_len text) capacity)) [
    | inl e ↦
        rw e (append-nil (visible is_space (strip is_space text)) ∙ visible-strip is_space text)
    | inr e ↦ rw e (cut_chunk-visible text (largest_char_boundary text capacity) capacity)
  ]

  strip-drop-lt :
      (k : ℕ) (text : Text)
      → 0 < k
      → 0 < length text
      → length (strip is_space (drop k text)) < length text
  strip-drop-lt k text h n = omega (arith, length-strip is_space (drop k text), length-drop k text)

  no_cut : (text : Text) (capacity : ℕ) → best_text_cut text 0 capacity ≡ 0
  no_cut text capacity = omega (arith, (best_text_cut-bound text 0 capacity (omega arith)).0)

  cut_chunk-length :
      (text : Text) (end capacity : ℕ)
      → end ≤ length text
      → 0 < length text
      → length (cut_chunk py text end capacity).1 < length text
  unfolding cut_chunk strip
  cut_chunk-length text zero capacity inside n =
      rw (no_cut text capacity) (strip-drop-lt 1 text (omega arith) n)
  cut_chunk-length text (suc end) capacity inside n =
      elim (Bool-cases
        (is_empty (strip is_space (take (best_text_cut text (suc end) capacity) text)))) [
          | inl e ↦ rw e (strip-drop-lt (max 1 (suc end)) text (omega arith) n)
          | inr e ↦ rw e (
              strip-drop-lt (best_text_cut text (suc end) capacity) text
                ((best_text_cut-bound text (suc end) capacity inside).1 (omega arith)) n)
        ]

  -- The rest is shorter, whatever the capacity: the loop moves forward.
  pub take_chunk-length :
      (text : Text) (capacity : ℕ)
      → 0 < length text
      → length (take_chunk py text capacity).1 < length text
  unfolding take_chunk
  take_chunk-length text capacity n = elim (Bool-cases (leb (utf8_len text) capacity)) [
    | inl e ↦ rw e n
    | inr e ↦ rw e (
        cut_chunk-length text (largest_char_boundary text capacity) capacity
          (largest_char_boundary-IsBoundary text capacity).inside n)
  ]

  -- One character fits into four bytes.
  boundary_pos :
      (text : Text) (capacity : ℕ)
      → 4 ≤ capacity
      → 0 < length text
      → 0 < largest_char_boundary text capacity
  unfolding utf8_len
  boundary_pos [] capacity h n = elim n [ ]
  boundary_pos (c ∷ text) capacity h n =
      grind
        (arith, (largest_char_boundary-IsBoundary (c ∷ text) capacity).largest 1, char_len_bounds c)

  cut_chunk-fits :
      (text : Text) (end capacity : ℕ)
      → 0 < end
      → end ≤ length text
      → utf8_len (take end text) ≤ capacity
      → utf8_len (cut_chunk py text end capacity).0 ≤ capacity
  unfolding cut_chunk
  cut_chunk-fits text zero capacity h inside fits = elim h [ ]
  cut_chunk-fits text (suc end) capacity h inside fits = ground (
    arith,
    utf8_len-strip is_space (take (max 1 (suc end)) text),
    utf8_len-strip is_space (take (best_text_cut text (suc end) capacity) text),
    utf8_len-take_mono (best_text_cut text (suc end) capacity) (suc end) text,
    best_text_cut-bound text (suc end) capacity inside,
  )

  -- A chunk fits into a capacity that has room for one character.
  pub take_chunk-fits :
      (text : Text) (capacity : ℕ)
      → 4 ≤ capacity
      → 0 < length text
      → utf8_len (take_chunk py text capacity).0 ≤ capacity
  unfolding take_chunk
  take_chunk-fits text capacity h n = elim (Bool-cases (leb (utf8_len text) capacity)) [
    | inl e ↦ rw e (ground (arith, utf8_len-strip is_space text))
    | inr e ↦ rw e (
        cut_chunk-fits text (largest_char_boundary text capacity) capacity
          (boundary_pos text capacity h n) (largest_char_boundary-IsBoundary text capacity).inside
          (largest_char_boundary-IsBoundary text capacity).fits)
  ]
