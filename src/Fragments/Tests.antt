-- ===== src/Fragments/Tests.antt =====
-- Runs of the splitter, and the theorems at concrete texts.
use meshtastic_matrix_relay.Prelude.{
  ℕ, ◌+◌, ◌%◌, ◌<◌, ◌≡◌, refl, ◌⊎◌, true, false, Option, some, List, [], ◌∷◌, arith, ◌==◌, ok, err,
  if◌then◌else◌,
}
use meshtastic_matrix_relay.Text.{Text, codes, text_eq, char_len, utf8_len, rfind, strip}
use meshtastic_matrix_relay.Text.Laws.{char_len_bounds}
use meshtastic_matrix_relay.PyValue.{bool, dict, Fields, end, field}
use meshtastic_matrix_relay.Fragments.{
  StrOps, Settings, suffix_too_large, largest_char_boundary, boundary_loop, best_text_cut,
  take_chunk, split_body_chunks, split_text_for_meshtastic, split_enabled, fragment_rounds,
  render_from, chunk_loop, format_prefix,
}
use meshtastic_matrix_relay.Fragments.Loop.{HasRoom}
use meshtastic_matrix_relay.Fragments.Boundary.{IsBoundary, largest_char_boundary-IsBoundary}
use meshtastic_matrix_relay.Fragments.Split.{
  FragmentsFit, NeverAgrees, IsSplit, split_text_fits, split_text_for_meshtastic-IsSplit,
  split_text_ends,
}
use meshtastic_matrix_relay.Fragments.Overflow.{last_fragment_overflows}

-- The template "!" gives "!!!!"; any other gives "[i/n] ", for numbers of one digit.
abbrev one_digit : Text → ℕ → ℕ → Option Text
one_digit template i n =
    if text_eq template (codes "!")
    then some (codes "!!!!")
    else some (b'[' ∷ (48 + i % 10) ∷ b'/' ∷ (48 + n % 10) ∷ codes "] ")

abbrev ops : StrOps
ops = record { is_space = λ c. c == b' '; format = one_digit }

abbrev small : Settings
small = record {
  enabled = true;
  homoglyph_optimization = false;
  max_payload_bytes = 32;
  prefix_template = codes "#";
  last_suffix_template = [];
  fragment_delay = 0;
}

abbrev with_suffix : Settings
with_suffix = record small { last_suffix_template = codes "!" }

small-HasRoom : (bound : ℕ) → HasRoom ops small bound
unfolding utf8_len format_prefix text_eq char_len
small-HasRoom bound i n _ _ =
    ground (arith, char_len_bounds (48 + i % 10), char_len_bounds (48 + n % 10))

abbrev message : Text
message = codes "one two three four five six seven"

abbrev sent : List Text
sent = codes "[1/2] one two three four five" ∷ codes "[2/2] six seven" ∷ []

message_split : split_text_for_meshtastic ops message (some small) ≡ ok sent
unfolding split_text_for_meshtastic split_enabled fragment_rounds split_body_chunks chunk_loop
    render_from take_chunk largest_char_boundary boundary_loop best_text_cut rfind strip utf8_len
    char_len format_prefix text_eq
message_split = refl

split_text_fits_example : FragmentsFit ops small 2 1 sent ⊎ NeverAgrees ops small 8 message 1
split_text_fits_example =
    split_text_fits ops small message sent (small-HasRoom _) refl message_split

split_text_for_meshtastic-IsSplit_example : (sent ≡ message ∷ []) ⊎ IsSplit ops small message sent
split_text_for_meshtastic-IsSplit_example =
    split_text_for_meshtastic-IsSplit ops small message sent (small-HasRoom _) refl message_split

split_text_ends_example :
    ((fragments : List Text) × (split_text_for_meshtastic ops message (some small) ≡ ok fragments))
    ⊎ (split_text_for_meshtastic ops message (some small) ≡ err suffix_too_large)
split_text_ends_example = split_text_ends ops small message

largest_char_boundary-IsBoundary_example : IsBoundary message 26 (largest_char_boundary message 26)
largest_char_boundary-IsBoundary_example = largest_char_boundary-IsBoundary message 26

-- 24 bytes of text beside a prefix of 6 and a suffix of 4, in payloads of 32.
abbrev rest_text : Text
rest_text = codes "bcdefghijklmnopqrstuvwx"

last_fragment_overflows_example :
    (chunk_loop ops with_suffix 2 2 2 (b'a' ∷ rest_text) ≡ ok ((b'a' ∷ rest_text) ∷ []))
    × (f : Text) × (render_from ops with_suffix 2 2 ((b'a' ∷ rest_text) ∷ []) ≡ f ∷ [])
    × (32 < utf8_len f)
unfolding utf8_len char_len format_prefix text_eq strip
last_fragment_overflows_example =
    last_fragment_overflows ops with_suffix 0 2 b'a' rest_text (omega arith) refl (omega arith)
      (omega arith)

abbrev settings : Fields
settings =
    field (codes "meshtastic")
      (dict (
        field (codes "message_fragmentation") (dict (field (codes "enabled") (bool true) end)) end))
      end

abbrev defaults : Settings
defaults = record {
  enabled = true;
  homoglyph_optimization = false;
  max_payload_bytes = 180;
  prefix_template = codes "[{index}/{total}] ";
  last_suffix_template = [];
  fragment_delay = 15000;
}

abbrev look_alikes : Text
look_alikes = codes "Сом"
