-- ===== src/Fragments.antt =====
-- matrix/fragments.py: long Matrix messages cut into Meshtastic payloads.
-- A payload size is a number of UTF-8 bytes. `str.format` and `str.isspace` are Python's, and
-- enter as the record `StrOps`; `none` stands for the IndexError, KeyError or ValueError that
-- `_format_template` catches (a template at which `format` raises anything else is left out).
pub mod Boundary
pub mod Config
pub mod Homoglyphs
pub mod Chunks
pub mod Loop
pub mod Split
pub mod Overflow
mod Tests
use meshtastic_matrix_relay.Prelude.{
  ℕ, zero, suc, ◌+◌, ◌-◌, ◌*◌, ◌/◌, ◌≡◌, Bool, true, false, Option, none, some, List, [], ◌∷◌, ◌++◌,
  map, max, leb, ◌==◌, if◌then◌else◌, length, take, drop, Result, ok, err, ◌>>=◌,
}
use meshtastic_matrix_relay.Text.{Text, codes, utf8_len, rfind, strip}

pub record StrOps : Type 0 where
  pub is_space : ℕ → Bool
  pub format : Text → ℕ → ℕ → Option Text

-- The normalised settings; `none` in their place is `{"enabled": False}`.
pub record Settings : Type 0 where
  pub enabled : Bool
  pub homoglyph_optimization : Bool
  pub max_payload_bytes : ℕ
  pub prefix_template : Text
  pub last_suffix_template : Text
  pub fragment_delay : ℕ  -- thousandths of a second

-- The two `ValueError`s; `out_of_fuel` is the model's own, and is shown not to occur.
pub data SplitError : Type 0 where
  suffix_too_large prefix_too_large out_of_fuel : SplitError

abbrev pub default_prefix_template : Text
default_prefix_template = codes "[{index}/{total}] "

-- `while low < high` of the binary search; the fuel is the length of the text.
unfoldable pub boundary_loop : ℕ → Text → ℕ → ℕ → ℕ → ℕ
boundary_loop zero text capacity low high = low
boundary_loop (suc fuel) text capacity low high =
    let mid = (low + high + 1) / 2 in
    let up = boundary_loop fuel text capacity mid high in
    let down = boundary_loop fuel text capacity low (mid - 1) in
    if leb high low then low else if leb (utf8_len (take mid text)) capacity then up else down

unfoldable pub largest_char_boundary : Text → ℕ → ℕ
largest_char_boundary text capacity = boundary_loop (length text) text capacity 0 (length text)

abbrev pub delimiters : List Text
delimiters =
    codes "\n\n"
    ∷ codes "\n"
    ∷ codes ". "
    ∷ codes "! "
    ∷ codes "? "
    ∷ codes "; "
    ∷ codes ", "
    ∷ codes " "
    ∷ []

-- The loop over the delimiters.
unfoldable pub best_cut_from : List Text → Text → ℕ → ℕ → ℕ
best_cut_from [] text end minimum = end
best_cut_from (d ∷ ds) text end minimum =
    let rest = best_cut_from ds text end minimum in
    elim (rfind (take end text) d) [
      | none ↦ rest
      | some pos ↦
          if pos == 0
          then rest
          else if leb minimum (utf8_len (take (pos + length d) text))
          then pos + length d
          else rest
    ]

-- The double 0.45 lies a little above 45 / 100, so `int(capacity * 0.45)` is the exact quotient.
unfoldable pub best_text_cut : Text → ℕ → ℕ → ℕ
unfolding best_cut_from
best_text_cut text end capacity = best_cut_from delimiters text end (max 1 (capacity * 45 / 100))

-- `chunks.append(chunk)` before the rest of the loop.
abbrev pub prepend : Text → Result SplitError (List Text) → Result SplitError (List Text)
prepend chunk (ok chunks) = ok (chunk ∷ chunks)
prepend chunk (err e) = err e

abbrev pub is_empty : Text → Bool
is_empty [] = true
is_empty (c ∷ s) = false

module _ (py : StrOps) where
  open py use {is_space, format}

  unfoldable pub cut_chunk : Text → ℕ → ℕ → Text × Text
  cut_chunk text end capacity =
      let cut = best_text_cut text end capacity in
      let chunk = strip is_space (take cut text) in
      if is_empty chunk
      then (strip is_space (take (max 1 end) text), strip is_space (drop (max 1 end) text))
      else (chunk, strip is_space (drop cut text))

  unfoldable pub take_chunk : Text → ℕ → Text × Text
  unfolding cut_chunk
  take_chunk text capacity =
      if leb (utf8_len text) capacity
      then (strip is_space text, [])
      else cut_chunk text (largest_char_boundary text capacity) capacity

  abbrev pub text_or_empty : Option Text → Text
  text_or_empty none = []
  text_or_empty (some t) = t

  unfoldable pub format_template : Text → ℕ → ℕ → Text
  format_template [] index total = []
  format_template (c ∷ t) index total = text_or_empty (format (c ∷ t) index total)

  -- `a or b`
  abbrev or_text : Text → Text → Text
  or_text [] b = b
  or_text (c ∷ a) b = c ∷ a

  unfoldable pub format_prefix : Text → ℕ → ℕ → Text
  unfolding format_template
  format_prefix template index total =
      or_text (format_template template index total)
        (text_or_empty (format default_prefix_template index total))

  module _ (s : Settings) where
    open s use {max_payload_bytes, prefix_template, last_suffix_template}

    abbrev pub prefix_len : ℕ → ℕ → ℕ
    prefix_len index total = utf8_len (format_prefix prefix_template index total)

    abbrev pub suffix_len : ℕ → ℕ → ℕ
    suffix_len index total = utf8_len (format_template last_suffix_template index total)

    -- `while remaining:`; `index` is `len(chunks) + 1`.
    unfoldable pub chunk_loop : ℕ → ℕ → ℕ → Text → Result SplitError (List Text)
    chunk_loop zero total index remaining = err out_of_fuel
    chunk_loop (suc fuel) total index [] = ok []
    chunk_loop (suc fuel) total index (c ∷ r) =
        let (chunk, rest) = take_chunk (c ∷ r) (max_payload_bytes - prefix_len index total) in
        let more = prepend chunk (chunk_loop fuel total (suc index) rest) in
        if leb max_payload_bytes (prefix_len index total + suffix_len index total)
        then err suffix_too_large
        else if leb (utf8_len (c ∷ r))
            (max_payload_bytes - prefix_len index total - suffix_len index total)
        then ok (strip is_space (c ∷ r) ∷ [])
        else if leb max_payload_bytes (prefix_len index total)
        then err prefix_too_large
        else more

    unfoldable pub split_body_chunks : Text → ℕ → Result SplitError (List Text)
    split_body_chunks text total = chunk_loop (suc (length text)) total 1 (strip is_space text)

    -- The comprehension over `enumerate(body_chunks)`; `index` is the source's `index + 1`.
    unfoldable pub render_from : ℕ → ℕ → List Text → List Text
    render_from index total [] = []
    render_from index total (chunk ∷ chunks) =
        (format_prefix prefix_template index total
          ++ (chunk
              ++ (if index == total then format_template last_suffix_template index total else [])))
        ∷ render_from (suc index) total chunks

    abbrev pub render : List Text → List Text
    render chunks = render_from 1 (length chunks) chunks

    -- `for _ in range(8)`
    unfoldable pub fragment_rounds : ℕ → Text → ℕ → List Text → Result SplitError (List Text)
    fragment_rounds zero text total fragments = ok fragments
    fragment_rounds (suc k) text total fragments = do
      chunks ← split_body_chunks text total
      let more = fragment_rounds k text (length chunks) (render chunks)
      if length chunks == total then ok (render chunks) else more

abbrev pub translation : List (ℕ × ℕ)
translation =
    (0x405, b'S')
    ∷ (0x406, b'I')
    ∷ (0x408, b'J')
    ∷ (0x410, b'A')
    ∷ (0x412, b'B')
    ∷ (0x415, b'E')
    ∷ (0x41A, b'K')
    ∷ (0x41C, b'M')
    ∷ (0x41D, b'H')
    ∷ (0x41E, b'O')
    ∷ (0x420, b'P')
    ∷ (0x421, b'C')
    ∷ (0x422, b'T')
    ∷ (0x425, b'X')
    ∷ (0x430, b'a')
    ∷ (0x435, b'e')
    ∷ (0x43E, b'o')
    ∷ (0x440, b'p')
    ∷ (0x441, b'c')
    ∷ (0x443, b'y')
    ∷ (0x445, b'x')
    ∷ (0x455, b's')
    ∷ (0x456, b'i')
    ∷ (0x458, b'j')
    ∷ (0x4AE, b'Y')
    ∷ (0x417, b'3')
    ∷ []

pub translate_from : List (ℕ × ℕ) → ℕ → ℕ
translate_from [] c = c
translate_from ((k, v) ∷ table) c = if c == k then v else translate_from table c

-- `text.translate(HOMOGLYPH_TRANSLATION)`
pub optimize_text_with_homoglyphs : Text → Text
optimize_text_with_homoglyphs = map (translate_from translation)

module _ (py : StrOps) where
  unfoldable pub split_enabled : Settings → Text → Result SplitError (List Text)
  split_enabled s text =
      let text' = if s.homoglyph_optimization then optimize_text_with_homoglyphs text else text in
      if leb (utf8_len text') s.max_payload_bytes
      then ok (text' ∷ [])
      else fragment_rounds py s 8 text' 1 (text' ∷ [])

  unfoldable pub split_text_for_meshtastic : Text → Option Settings → Result SplitError (List Text)
  split_text_for_meshtastic text none = ok (text ∷ [])
  split_text_for_meshtastic text (some s) =
      if s.enabled then split_enabled s text else ok (text ∷ [])
