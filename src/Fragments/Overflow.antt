-- ===== src/Fragments/Overflow.antt =====
-- A last fragment that is too long for its payload.
use meshtastic_matrix_relay.Prelude.{
  ℕ, suc, ◌+◌, ◌-◌, ◌≤◌, ◌<◌, ◌≡◌, true, false, [], ◌∷◌, ◌++◌, arith, leb, ◌==◌, ok, ap,
}
use meshtastic_matrix_relay.Text.{Text, utf8_len, strip}
use meshtastic_matrix_relay.Text.Laws.{utf8_len-append}
use meshtastic_matrix_relay.Fragments.{
  StrOps, Settings, prefix_len, suffix_len, chunk_loop, take_chunk, format_prefix, format_template,
  render_from, prepend,
}

module _ (py : StrOps) (s : Settings) where
  open py use {is_space}

  take_all :
      (capacity : ℕ) (r : Text)
      → utf8_len r ≤ capacity
      → take_chunk py r capacity ≡ (strip is_space r, [])
  unfolding take_chunk
  take_all capacity r h = let e : leb (utf8_len r) capacity ≡ true = ground arith in rw e

  rendered_len :
      (total : ℕ) (r : Text)
      → (f : Text) × (render_from py s total total (r ∷ []) ≡ f ∷ [])
        × (utf8_len f ≡ prefix_len py s total total + utf8_len r + suffix_len py s total total)
  unfolding render_from
  rendered_len total r =
      let e : (total == total) ≡ true = ground arith in
      (
        format_prefix py s.prefix_template total total
            ++ (r ++ format_template py s.last_suffix_template total total),
        rw e,
        rw utf8_len-append (rw utf8_len-append (omega arith)),
      )

  -- At the last index, a remainder that fits beside the prefix but not beside prefix and suffix
  -- becomes one chunk all the same, and the fragment rendered from it exceeds the payload.
  pub last_fragment_overflows :
      (fuel total c : ℕ) (r : Text)
      → prefix_len py s total total + suffix_len py s total total < s.max_payload_bytes
      → strip is_space (c ∷ r) ≡ c ∷ r
      → prefix_len py s total total + utf8_len (c ∷ r) ≤ s.max_payload_bytes
      → s.max_payload_bytes
        < prefix_len py s total total + utf8_len (c ∷ r) + suffix_len py s total total
      → (chunk_loop py s (suc (suc fuel)) total total (c ∷ r) ≡ ok ((c ∷ r) ∷ []))
        × (f : Text) × (render_from py s total total ((c ∷ r) ∷ []) ≡ f ∷ [])
        × (s.max_payload_bytes < utf8_len f)
  unfolding chunk_loop
  last_fragment_overflows fuel total c r room stripped fits over =
      let (f, e, len) = rendered_len total (c ∷ r) in
      (
        rw
            (
              below,
              long,
              prefixed,
              take_all (s.max_payload_bytes - prefix_len py s total total) (c ∷ r) (omega arith),
            )
            (ap (λ t. prepend t (ok [])) stripped),
        f,
        e,
        omega arith,
      )
    where
      below :
          leb s.max_payload_bytes (prefix_len py s total total + suffix_len py s total total)
          ≡ false
      below = ground arith

      long :
          leb
            (utf8_len (c ∷ r))
            (s.max_payload_bytes - prefix_len py s total total - suffix_len py s total total)
          ≡ false
      long = ground arith

      prefixed : leb s.max_payload_bytes (prefix_len py s total total) ≡ false
      prefixed = ground arith
