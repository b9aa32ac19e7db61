-- ===== src/Fragments/Loop.antt =====
-- The loop of `_split_body_chunks`: it ends, it loses nothing that is visible, and its chunks fit.
use meshtastic_matrix_relay.Prelude.{
  ℕ, zero, suc, ◌+◌, ◌-◌, ◌≤◌, ◌<◌, ◌≡◌, refl, ap, ◌∙◌, ◌⊎◌, false, List, [], ◌∷◌, ◌++◌, arith, leb,
  length, Bool-cases, inl, inr, Result, ok, err,
}
use meshtastic_matrix_relay.Text.{Text, utf8_len, strip, visible}
use meshtastic_matrix_relay.Text.Laws.{length-strip, utf8_len-strip, visible-strip, visible-append}
use meshtastic_matrix_relay.Fragments.{
  StrOps, Settings, SplitError, suffix_too_large, take_chunk, prefix_len, suffix_len, chunk_loop,
  prepend, split_body_chunks,
}
use meshtastic_matrix_relay.Fragments.Chunks.{
  take_chunk-visible, take_chunk-length, take_chunk-fits,
}
use mathlib.Core.List.{append-nil, flatten}

module _ (py : StrOps) (s : Settings) where
  open py use {is_space}

  -- Room for a character beside the prefix, at every index up to a bound.
  abbrev pub HasRoom : ℕ → Type 0
  HasRoom bound =
      (index total : ℕ)
      → index ≤ bound
      → total ≤ bound
      → prefix_len py s index total + 4 ≤ s.max_payload_bytes

  -- Each chunk fits into a payload with the prefix of its index.
  abbrev pub ChunksFit : ℕ → ℕ → List Text → Type 0
  ChunksFit total index [] = Unit
  ChunksFit total index (chunk ∷ chunks) =
      (prefix_len py s index total + utf8_len chunk ≤ s.max_payload_bytes)
      × ChunksFit total (suc index) chunks

  abbrev Ends : Result SplitError (List Text) → Type 0
  Ends r = ((chunks : List Text) × (r ≡ ok chunks)) ⊎ (r ≡ err suffix_too_large)

  prepend-Ends :
      (chunk : Text) (r : Result SplitError (List Text)) → Ends r → Ends (prepend chunk r)
  prepend-Ends chunk r (inl (chunks, e)) = inl (chunk ∷ chunks, ap (prepend chunk) e)
  prepend-Ends chunk r (inr e) = inr (ap (prepend chunk) e)

  -- One round of the loop, by the way that it goes; the second `ValueError` cannot be reached.
  chunk_loop_cases {ℓ} :
      (P : Result SplitError (List Text) → Type ℓ) (fuel total index c : ℕ) (r : Text)
      → P (err suffix_too_large)
      → (prefix_len py s index total + suffix_len py s index total < s.max_payload_bytes
          → utf8_len (c ∷ r)
            ≤ s.max_payload_bytes - prefix_len py s index total - suffix_len py s index total
          → P (ok (strip is_space (c ∷ r) ∷ [])))
      → (prefix_len py s index total + suffix_len py s index total < s.max_payload_bytes
          → let cut = take_chunk py (c ∷ r) (s.max_payload_bytes - prefix_len py s index total) in
            P (prepend cut.0 (chunk_loop py s fuel total (suc index) cut.1)))
      → P (chunk_loop py s (suc fuel) total index (c ∷ r))
  unfolding chunk_loop
  chunk_loop_cases P fuel total index c r too_large last more =
      elim (Bool-cases
        (leb s.max_payload_bytes (prefix_len py s index total + suffix_len py s index total))) [
          | inl e ↦ rw e too_large
          | inr e ↦
              elim (Bool-cases (
                leb (utf8_len (c ∷ r)) (
                  s.max_payload_bytes
                  - prefix_len py s index total
                  - suffix_len py s index total))) [
                    | inl e' ↦ rw (e, e') (last (ground arith) (ground arith))
                    | inr e' ↦
                        let e'' : leb s.max_payload_bytes (prefix_len py s index total) ≡ false =
                          ground arith in
                        rw (e, e', e'') (more (ground arith))
                  ]
        ]

  chunk_loop-Ends :
      (fuel total index : ℕ) (r : Text)
      → length r < fuel
      → Ends (chunk_loop py s fuel total index r)
  unfolding chunk_loop
  chunk_loop-Ends zero total index r h = elim h [ ]
  chunk_loop-Ends (suc fuel) total index [] h = inl ([], refl)
  chunk_loop-Ends (suc fuel) total index (c ∷ r) h =
      chunk_loop_cases Ends fuel total index c r (inr refl)
        (λ _ _. inl (strip is_space (c ∷ r) ∷ [], refl))
        λ _. prepend-Ends _ _ (
          chunk_loop-Ends fuel total (suc index)
            (take_chunk py (c ∷ r) (s.max_payload_bytes - prefix_len py s index total)).1
            (omega (
              arith,
              take_chunk-length py (c ∷ r) (s.max_payload_bytes - prefix_len py s index total)
                  (omega arith),
            )))

  -- `_split_body_chunks` returns chunks, or raises the first of its two errors; the fuel is enough.
  pub split_body_chunks-Ends :
      (text : Text) (total : ℕ)
      → ((chunks : List Text) × (split_body_chunks py s text total ≡ ok chunks))
        ⊎ (split_body_chunks py s text total ≡ err suffix_too_large)
  unfolding split_body_chunks
  split_body_chunks-Ends text total =
      chunk_loop-Ends (suc (length text)) total 1 (strip is_space text)
        (omega (arith, length-strip is_space text))

  abbrev Shows : Text → Result SplitError (List Text) → Type 0
  Shows r (ok chunks) = visible is_space (flatten chunks) ≡ visible is_space r
  Shows r (err e) = Unit

  prepend-Shows :
      (text chunk rest : Text) (r : Result SplitError (List Text))
      → visible is_space chunk ++ visible is_space rest ≡ visible is_space text
      → Shows rest r
      → Shows text (prepend chunk r)
  unfolding flatten
  prepend-Shows text chunk rest (ok chunks) h e =
      visible-append is_space chunk (flatten chunks) ∙ ap (λ v. visible is_space chunk ++ v) e ∙ h
  prepend-Shows text chunk rest (err x) h e = tt

  chunk_loop-Shows :
      (fuel total index : ℕ) (r : Text) → Shows r (chunk_loop py s fuel total index r)
  unfolding chunk_loop flatten
  chunk_loop-Shows zero total index r = tt
  chunk_loop-Shows (suc fuel) total index [] = refl
  chunk_loop-Shows (suc fuel) total index (c ∷ r) =
      chunk_loop_cases (Shows (c ∷ r)) fuel total index c r tt
        (λ _ _. rw (append-nil (strip is_space (c ∷ r))) (visible-strip is_space (c ∷ r)))
        λ _.
          prepend-Shows (c ∷ r) _ _ _
            (take_chunk-visible py (c ∷ r) (s.max_payload_bytes - prefix_len py s index total))
            (chunk_loop-Shows fuel total (suc index)
              (take_chunk py (c ∷ r) (s.max_payload_bytes - prefix_len py s index total)).1)

  -- The chunks hold the visible characters of the text, in their order.
  pub split_body_chunks-visible :
      (text : Text) (total : ℕ) (chunks : List Text)
      → split_body_chunks py s text total ≡ ok chunks
      → visible is_space (flatten chunks) ≡ visible is_space text
  unfolding split_body_chunks
  split_body_chunks-visible text total chunks e =
      (rw e at (chunk_loop-Shows (suc (length text)) total 1 (strip is_space text)))
      ∙ visible-strip is_space text

  abbrev Fits : ℕ → ℕ → Result SplitError (List Text) → Type 0
  Fits total index (ok chunks) = ChunksFit total index chunks
  Fits total index (err e) = Unit

  prepend-Fits :
      (total index : ℕ) (chunk : Text) (r : Result SplitError (List Text))
      → prefix_len py s index total + utf8_len chunk ≤ s.max_payload_bytes
      → Fits total (suc index) r
      → Fits total index (prepend chunk r)
  prepend-Fits total index chunk (ok chunks) h e = (h, e)
  prepend-Fits total index chunk (err x) h e = tt

  chunk_loop-Fits :
      (bound : ℕ)
      → HasRoom bound
      → (fuel total index : ℕ) (r : Text) → total ≤ bound
      → index + length r ≤ suc bound
      → Fits total index (chunk_loop py s fuel total index r)
  unfolding chunk_loop
  chunk_loop-Fits bound room zero total index r t i = tt
  chunk_loop-Fits bound room (suc fuel) total index [] t i = tt
  chunk_loop-Fits bound room (suc fuel) total index (c ∷ r) t i =
      chunk_loop_cases (Fits total index) fuel total index c r tt
        (λ h fits. (omega (arith, utf8_len-strip is_space (c ∷ r)), tt))
        λ h.
          prepend-Fits total index _ _
            (omega (
              arith,
              room index total (omega arith) t,
              take_chunk-fits py (c ∷ r) (s.max_payload_bytes - prefix_len py s index total)
                  (omega (arith, room index total (omega arith) t)) (omega arith),
            ))
            (chunk_loop-Fits bound room fuel total (suc index)
              (take_chunk py (c ∷ r) (s.max_payload_bytes - prefix_len py s index total)).1 t
              (omega (
                arith,
                take_chunk-length py (c ∷ r) (s.max_payload_bytes - prefix_len py s index total)
                    (omega arith),
              )))

  pub split_body_chunks-Fits :
      (text : Text)
      → HasRoom (suc (length text))
      → (total : ℕ) (chunks : List Text) → total ≤ suc (length text)
      → split_body_chunks py s text total ≡ ok chunks
      → ChunksFit total 1 chunks
  unfolding split_body_chunks
  split_body_chunks-Fits text room total chunks t e = rw e at (
      chunk_loop-Fits (suc (length text)) room (suc (length text)) total 1 (strip is_space text) t
        (omega (arith, length-strip is_space text)))

  abbrev Counts : ℕ → Result SplitError (List Text) → Type 0
  Counts n (ok chunks) = length chunks ≤ n
  Counts n (err e) = Unit

  prepend-Counts :
      (m n : ℕ) (chunk : Text) (r : Result SplitError (List Text))
      → m < n
      → Counts m r
      → Counts n (prepend chunk r)
  prepend-Counts m n chunk (ok chunks) h c = omega arith
  prepend-Counts m n chunk (err x) h c = tt

  chunk_loop-Counts :
      (fuel total index : ℕ) (r : Text) → Counts (length r) (chunk_loop py s fuel total index r)
  unfolding chunk_loop
  chunk_loop-Counts zero total index r = tt
  chunk_loop-Counts (suc fuel) total index [] = omega arith
  chunk_loop-Counts (suc fuel) total index (c ∷ r) =
      chunk_loop_cases (Counts (length (c ∷ r))) fuel total index c r tt (λ _ _. omega arith)
        λ _.
          prepend-Counts
            (length (take_chunk py (c ∷ r) (s.max_payload_bytes - prefix_len py s index total)).1)
            (length (c ∷ r)) _ _
            (take_chunk-length py (c ∷ r) (s.max_payload_bytes - prefix_len py s index total)
              (omega arith))
            (chunk_loop-Counts fuel total (suc index)
              (take_chunk py (c ∷ r) (s.max_payload_bytes - prefix_len py s index total)).1)

  -- There are at most as many chunks as characters.
  pub split_body_chunks-length :
      (text : Text) (total : ℕ) (chunks : List Text)
      → split_body_chunks py s text total ≡ ok chunks
      → length chunks ≤ length text
  unfolding split_body_chunks
  split_body_chunks-length text total chunks e =
      let at_most : length chunks ≤ length (strip is_space text) =
        rw e at (chunk_loop-Counts (suc (length text)) total 1 (strip is_space text)) in
      omega (arith, length-strip is_space text)
