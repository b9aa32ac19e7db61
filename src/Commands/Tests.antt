-- ===== src/Commands/Tests.antt =====
-- matrix/command_bridge.py on ASCII texts.
use meshtastic_matrix_relay.Prelude.{
  ℕ, ◌≡◌, refl, Bool, true, false, ◌&&◌, ◌||◌, none, some, List, [], ◌∷◌, ◌+◌, leb, ◌==◌,
  if◌then◌else◌, arith, ==_iff, map, pos,
}
use meshtastic_matrix_relay.Text.{Text, codes, text_eq, starts_with, lstrip, strip}
use meshtastic_matrix_relay.PyValue.{Value, str, int}
use meshtastic_matrix_relay.Commands.{
  Chars, Lookup, spelling, is_one_line, chomp, longest_first, insert_longest, match_word,
  cons_matched, match_args, with_args, after_word, match_command, or_match, match_any, parsed,
  after_mention, consume_mxid, consume_display_name, first_mentioned, bang_after, or_command,
  by_display_name, first_plain, plain_or_mentioned, mentioned, parse_with, build_command_lookup,
  build_from, add_name, add_command, add_key, without_bang, args_in, match_bang_command,
  parse_matrix_message_command,
}
use meshtastic_matrix_relay.Commands.Bang.{all_words, invoked, has_space}
use meshtastic_matrix_relay.Commands.Words.{match_bang_command-invoked}
use meshtastic_matrix_relay.Commands.Mention.{Addressed, parse_matrix_message_command-Addressed}

abbrev is_blank : ℕ → Bool
is_blank c = c == 32 || c == 10

abbrev lower_char : ℕ → ℕ
lower_char c = if leb 65 c && leb c 90 then c + 32 else c

abbrev ascii : Chars
ascii = record {
  is_space = is_blank;
  same_char = λ c d. lower_char c == lower_char d;
  casefold = map lower_char;
  lower = map lower_char;
}

same_char_blank : (c d : ℕ) → (lower_char c == lower_char d) ≡ true → is_blank c ≡ is_blank d
same_char_blank c d h = grind (
  arith,
  ==_iff (lower_char c) (lower_char d),
  ==_iff c 32,
  ==_iff c 10,
  ==_iff d 32,
  ==_iff d 10,
)

abbrev two_commands : List Value
two_commands = str (codes "!Nodes") ∷ int (pos 3) ∷ str (codes " map ") ∷ str (codes "NODES") ∷ []

abbrev two_names : Lookup
two_names = (codes "nodes", codes "Nodes") ∷ (codes "map", codes "map") ∷ []

abbrev bot : Text
bot = codes "@b:x"

two_commands_lookup : build_command_lookup ascii two_commands ≡ two_names
unfolding build_command_lookup build_from add_name add_command without_bang add_key text_eq strip
two_commands_lookup = refl

any_case :
    match_bang_command ascii (codes "!NODES  a b") two_names
    ≡ some (record { command = codes "Nodes"; args = codes "a b" })
unfolding match_bang_command match_any match_command match_word cons_matched after_word with_args
    match_args args_in is_one_line chomp or_match parsed spelling longest_first insert_longest strip
    lstrip text_eq
any_case = refl

no_boundary : match_bang_command ascii (codes "!mapper") two_names ≡ none
unfolding match_bang_command match_any match_command match_word cons_matched after_word with_args
    match_args args_in is_one_line chomp or_match parsed spelling longest_first insert_longest strip
    lstrip text_eq
no_boundary = refl

two_lines : match_bang_command ascii (codes "!map a\nb") two_names ≡ none
unfolding match_bang_command match_any match_command match_word cons_matched after_word with_args
    match_args args_in is_one_line chomp or_match parsed spelling longest_first insert_longest strip
    lstrip text_eq
two_lines = refl

by_name_alone :
    parse_matrix_message_command ascii
      (some bot)
      (some (codes "Bot"))
      true
      two_commands
      (codes "bot: !map 5" ∷ [])
    ≡ some (record { command = codes "map"; args = codes "5" })
unfolding parse_matrix_message_command parse_with build_command_lookup build_from add_name
    add_command add_key without_bang match_bang_command match_any match_command match_word
    cons_matched after_word with_args match_args args_in is_one_line chomp or_match parsed spelling
    longest_first insert_longest strip lstrip text_eq mentioned first_mentioned bang_after
    or_command by_display_name consume_mxid consume_display_name after_mention starts_with
by_name_alone = refl

without_mention :
    parse_matrix_message_command ascii
      (some bot)
      (some (codes "Bot"))
      true
      two_commands
      (codes "!map 5" ∷ [])
    ≡ none
unfolding parse_matrix_message_command parse_with build_command_lookup build_from add_name
    add_command add_key without_bang match_bang_command match_any match_command match_word
    cons_matched after_word with_args match_args args_in is_one_line chomp or_match parsed spelling
    longest_first insert_longest strip lstrip text_eq mentioned first_mentioned bang_after
    or_command by_display_name consume_mxid consume_display_name after_mention starts_with
without_mention = refl

plain_first :
    parse_matrix_message_command ascii
      (some bot)
      none
      false
      two_commands
      (codes "@b:x !map" ∷ codes "!nodes" ∷ [])
    ≡ some (record { command = codes "map"; args = [] })
unfolding parse_matrix_message_command parse_with build_command_lookup build_from add_name
    add_command add_key without_bang match_bang_command match_any match_command match_word
    cons_matched after_word with_args match_args args_in is_one_line chomp or_match parsed spelling
    longest_first insert_longest strip lstrip text_eq mentioned first_mentioned bang_after
    or_command by_display_name consume_mxid consume_display_name after_mention starts_with
    first_plain plain_or_mentioned
plain_first = refl

match_bang_command-invoked_example :
    match_bang_command ascii (codes "!NODES  a b") two_names
    ≡ invoked ascii (codes "!NODES  a b") two_names
unfolding all_words has_space
match_bang_command-invoked_example =
    match_bang_command-invoked ascii refl same_char_blank (codes "!NODES  a b") two_names refl

parse_matrix_message_command-Addressed_example :
    Addressed ascii
      (some bot)
      (some (codes "Bot"))
      (build_command_lookup ascii two_commands)
      (codes "hi" ∷ codes "@b:x: !map 5" ∷ [])
      (record { command = codes "map"; args = codes "5" })
unfolding parse_matrix_message_command parse_with build_command_lookup build_from add_name
    add_command add_key without_bang match_bang_command match_any match_command match_word
    cons_matched after_word with_args match_args args_in is_one_line chomp or_match parsed spelling
    longest_first insert_longest strip lstrip text_eq mentioned first_mentioned bang_after
    or_command by_display_name consume_mxid consume_display_name after_mention starts_with
parse_matrix_message_command-Addressed_example =
    parse_matrix_message_command-Addressed ascii (some bot) (some (codes "Bot")) two_commands
      (codes "hi" ∷ codes "@b:x: !map 5" ∷ []) (record { command = codes "map"; args = codes "5" })
      refl
