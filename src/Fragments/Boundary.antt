-- ===== src/Fragments/Boundary.antt =====
-- Where `_take_chunk` cuts: the binary search and the choice of a delimiter.
use meshtastic_matrix_relay.Prelude.{
  ℕ, zero, suc, ◌+◌, ◌-◌, ◌/◌, ◌*◌, ◌≤◌, ◌<◌, List, [], ◌∷◌, max, arith, leb, length, take,
  length-take, Bool-cases, Option-cases, inl, inr,
}
use meshtastic_matrix_relay.Text.{Text, utf8_len, rfind}
use meshtastic_matrix_relay.Text.Laws.{utf8_len-take_mono, rfind-bound}
use meshtastic_matrix_relay.Fragments.{
  boundary_loop, largest_char_boundary, best_cut_from, best_text_cut, delimiters,
}

-- `k` is the largest number of characters of `text` that fit into `capacity` bytes.
pub record IsBoundary (text : Text) (capacity k : ℕ) : Type 0 where
  pub inside : k ≤ length text
  pub fits : utf8_len (take k text) ≤ capacity
  pub largest : (j : ℕ) → k < j → j ≤ length text → capacity < utf8_len (take j text)

boundary_loop-IsBoundary :
    (fuel : ℕ) (text : Text) (capacity low high : ℕ)
    → low ≤ high
    → high ≤ length text
    → high ≤ fuel + low
    → utf8_len (take low text) ≤ capacity
    → ((j : ℕ) → high < j → j ≤ length text → capacity < utf8_len (take j text))
    → IsBoundary text capacity (boundary_loop fuel text capacity low high)
unfolding boundary_loop
boundary_loop-IsBoundary zero text capacity low high le inside fuel fits above = record {
  inside = omega arith;
  fits = fits;
  largest = λ j p q. above j (omega arith) q;
}
boundary_loop-IsBoundary (suc fuel) text capacity low high le inside enough fits above =
    elim (Bool-cases (leb high low)) [
      | inl done ↦ rw done (record {
        inside = omega arith;
        fits = fits;
        largest = λ j p q. above j (ground arith) q;
      })
      | inr more ↦ elim (Bool-cases (leb (utf8_len (take ((low + high + 1) / 2) text)) capacity)) [
        | inl up ↦
            rw (more, up)
              (boundary_loop-IsBoundary fuel text capacity ((low + high + 1) / 2) high
                (ground arith) inside (ground arith) (ground arith) above)
        | inr down ↦
            rw (more, down)
              (boundary_loop-IsBoundary fuel text capacity low ((low + high + 1) / 2 - 1)
                (ground arith) (ground arith) (ground arith) fits
                (λ j p q. ground (arith, utf8_len-take_mono ((low + high + 1) / 2) j text)))
      ]
    ]

-- The binary search returns the longest beginning of the text that fits into the capacity.
pub largest_char_boundary-IsBoundary :
    (text : Text) (capacity : ℕ) → IsBoundary text capacity (largest_char_boundary text capacity)
unfolding largest_char_boundary utf8_len
largest_char_boundary-IsBoundary text capacity =
    boundary_loop-IsBoundary (length text) text capacity 0 (length text) (omega arith) (omega arith)
      (omega arith) (omega arith) (λ j p q. absurd (omega arith))

best_cut_from-bound :
    (ds : List Text) (text : Text) (end minimum : ℕ)
    → end ≤ length text
    → (best_cut_from ds text end minimum ≤ end) × (0 < end → 0 < best_cut_from ds text end minimum)
unfolding best_cut_from
best_cut_from-bound [] text end minimum inside = ground arith
best_cut_from-bound (d ∷ ds) text end minimum inside =
    elim (Option-cases (rfind (take end text) d)) [
      | inl e ↦ rw (e, best_cut_from) (best_cut_from-bound ds text end minimum inside)
      | inr (pos, e) ↦
          rw (e, best_cut_from)
            (ground (
              arith,
              best_cut_from-bound ds text end minimum inside,
              rfind-bound (take end text) d pos e,
              length-take end text,
            ))
    ]

-- The cut lies in the part that fits, and is no empty one if anything fits.
pub best_text_cut-bound :
    (text : Text) (end capacity : ℕ)
    → end ≤ length text
    → (best_text_cut text end capacity ≤ end) × (0 < end → 0 < best_text_cut text end capacity)
unfolding best_text_cut
best_text_cut-bound text end capacity inside =
    best_cut_from-bound delimiters text end (max 1 (capacity * 45 / 100)) inside
