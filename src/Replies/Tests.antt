-- ===== src/Replies/Tests.antt =====
-- matrix/replies.py and matrix/prefixes.py on short names and an old configuration.
use meshtastic_matrix_relay.Prelude.{◌≡◌, refl, true, false, none, some, [], ◌∷◌, ◌==◌, pos, negsuc}
use meshtastic_matrix_relay.Text.{codes, text_eq, char_len, starts_with, strip}
use meshtastic_matrix_relay.PyValue.{Value, bool, dict, field, end, get}
use meshtastic_matrix_relay.Fragments.Config.{get_message_fragmentation_config}
use meshtastic_matrix_relay.Replies.{
  Strings, truncate_message, joined_lines, get_meshtastic_prefix, get_matrix_prefix, is_fragmented,
  reply_text, format_reply_message,
}
use meshtastic_matrix_relay.Replies.Interactions.{
  at, expected, get_interaction_settings, get_interaction_settings_lem, get_msgs_to_keep_config,
}
use meshtastic_matrix_relay.Replies.Truncation.{IsCut, format_reply_message-IsCut}

-- One line, and no format that works.
abbrev strings : Strings
strings = record {
  is_space = λ c. c == 32;
  splitlines = λ s. s ∷ [];
  show = λ v. [];
  decimal = λ n. n ∷ [];
  format = λ s vars. none;
  parse_int = λ s. none;
  parse_float = λ s. none;
}

cut_character : truncate_message (codes "aé") (pos 2) ≡ some (codes "a")
unfolding truncate_message char_len
cut_character = refl

below_zero : truncate_message (codes "a") (negsuc 0) ≡ none
unfolding truncate_message
below_zero = refl

quoted_lines :
    joined_lines strings.is_space (codes "> said" ∷ codes " yes " ∷ [] ∷ codes "no" ∷ [])
    ≡ codes "yes no"
unfolding joined_lines strip
quoted_lines = refl

local_text :
    format_reply_message strings end (codes "Alexander") (codes "hi") [] [] [] (codes "home") [] []
    ≡ codes "Alexa[M]: hi"
unfolding format_reply_message is_fragmented get_message_fragmentation_config get strip
    get_meshtastic_prefix char_len
local_text = refl

remote_text :
    format_reply_message strings end
      (codes "Al")
      (codes "Al/away: hi")
      []
      []
      (codes "away")
      (codes "home")
      []
      []
    ≡ codes "[Al/away]:  hi"
unfolding format_reply_message is_fragmented get_message_fragmentation_config get text_eq strip
    get_matrix_prefix starts_with char_len
remote_text = refl

format_reply_message-IsCut_example :
    IsCut 227
      (reply_text strings end (codes "Alexander") (codes "hi") [] [] [] (codes "home") [] [])
      (format_reply_message strings end
        (codes "Alexander")
        (codes "hi")
        []
        []
        []
        (codes "home")
        []
        [])
unfolding is_fragmented get_message_fragmentation_config get
format_reply_message-IsCut_example =
    format_reply_message-IsCut strings end (codes "Alexander") (codes "hi") [] [] [] (codes "home")
      [] [] refl

abbrev old_config : Value
old_config =
    dict (field (codes "meshtastic") (dict (field (codes "relay_reactions") (bool true) end)) end)

get_interaction_settings_lem_example :
    get_interaction_settings old_config ≡ expected (at (some old_config) (codes "meshtastic"))
get_interaction_settings_lem_example = get_interaction_settings_lem old_config

reactions_alone : get_interaction_settings old_config ≡ record { reactions = true; replies = false }
unfolding get_interaction_settings get text_eq
reactions_alone = refl

kept_by_default : get_msgs_to_keep_config old_config ≡ pos 500
unfolding get_msgs_to_keep_config get text_eq
kept_by_default = refl
