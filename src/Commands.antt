-- ===== src/Commands.antt =====
-- matrix/command_bridge.py: which command a Matrix message invokes. `str.isspace` (which is also
-- `\s`), `str.casefold`, `str.lower` and the comparison of two characters under `re.IGNORECASE` are
-- the record `Chars`; the text that is left of a formatted body without its HTML is a parameter.
pub mod Bang
pub mod Words
pub mod Mention
mod Tests
use meshtastic_matrix_relay.Prelude.{
  ℕ, suc, Bool, true, false, ◌&&◌, ◌||◌, not, Option, none, some, List, [], ◌∷◌, ◌++◌, length, drop,
  leb, ◌==◌, if◌then◌else◌,
}
use meshtastic_matrix_relay.Text.{Text, codes, text_eq, mem_text, starts_with, lstrip, strip}
use meshtastic_matrix_relay.PyValue.{Value, str, get_in, or_default, as_dict, null}

pub record Chars : Type 0 where
  pub is_space : ℕ → Bool
  pub same_char : ℕ → ℕ → Bool
  pub casefold : Text → Text
  pub lower : Text → Text

-- `ParsedMatrixCommand`
pub record Command : Type 0 where
  pub command : Text
  pub args : Text

-- The dict from the folded command to its own spelling.
abbrev pub Lookup : Type 0
Lookup = List (Text × Text)

unfoldable pub spelling : Text → Lookup → Option Text
spelling key [] = none
spelling key ((k, v) ∷ l) = if text_eq k key then some v else spelling key l

abbrev pub values : Lookup → List Text
values [] = []
values ((k, v) ∷ l) = v ∷ values l

-- A key that is there keeps its value.
add_key : Text → Text → Lookup → Lookup
add_key key v [] = (key, v) ∷ []
add_key key v ((k, w) ∷ l) = if text_eq k key then (k, w) ∷ l else (k, w) ∷ add_key key v l

without_bang : Text → Text
without_bang [] = []
without_bang (c ∷ s) = if c == 33 then s else c ∷ s

abbrev is_empty : Text → Bool
is_empty [] = true
is_empty (c ∷ s) = false

-- `sorted(.., key=len, reverse=True)`: the longest first, and stable.
unfoldable pub insert_longest : Text → List Text → List Text
insert_longest x [] = x ∷ []
insert_longest x (y ∷ ys) =
    if leb (length y) (length x) then x ∷ y ∷ ys else y ∷ insert_longest x ys

unfoldable pub longest_first : List Text → List Text
longest_first [] = []
longest_first (x ∷ xs) = insert_longest x (longest_first xs)

-- `.*` matches no line feed, and `$` also stands before a last one.
unfoldable pub is_one_line : Text → Bool
is_one_line [] = true
is_one_line (c ∷ []) = true
is_one_line (c ∷ d ∷ s) = not (c == 10) && is_one_line (d ∷ s)

unfoldable pub chomp : Text → Text
chomp [] = []
chomp (c ∷ []) = if c == 10 then [] else c ∷ []
chomp (c ∷ d ∷ s) = c ∷ chomp (d ∷ s)

module _ (chars : Chars) where
  open chars use {is_space, same_char, casefold, lower}

  add_command : Text → Lookup → Lookup
  unfolding add_key
  add_command name l = if is_empty name then l else add_key (casefold name) name l

  -- One command of the caller.
  unfoldable pub add_name : Value → Lookup → Lookup
  unfolding add_command without_bang
  add_name (str s) l = add_command (without_bang (strip is_space s)) l
  add_name _ l = l

  build_from : List Value → Lookup → Lookup
  unfolding add_name
  build_from [] l = l
  build_from (v ∷ vs) l = build_from vs (add_name v l)

  -- `_build_command_lookup`
  unfoldable pub build_command_lookup : List Value → Lookup
  unfolding build_from
  build_command_lookup commands = build_from commands []

  unfoldable pub cons_matched : ℕ → Option (Text × Text) → Option (Text × Text)
  cons_matched d none = none
  cons_matched d (some (matched, rest)) = some (d ∷ matched, rest)

  -- `re.escape(command)` at the start of a text: what it matches, and the rest.
  unfoldable pub match_word : Text → Text → Option (Text × Text)
  unfolding cons_matched
  match_word [] s = some ([], s)
  match_word (c ∷ w) [] = none
  match_word (c ∷ w) (d ∷ s) = if same_char c d then cons_matched d (match_word w s) else none

  args_in : Text → Option Text
  args_in s = if is_one_line s then some (strip is_space (chomp s)) else none

  -- `(?=$|\s)(?:\s+(?P<args>.*))?$`
  unfoldable pub match_args : Text → Option Text
  unfolding args_in
  match_args [] = some []
  match_args (c ∷ s) =
      if c == 10 && is_empty s
      then some []
      else if is_space c
      then args_in (lstrip is_space (c ∷ s))
      else none

  unfoldable pub with_args : Text → Option Text → Option (Text × Text)
  with_args matched none = none
  with_args matched (some args) = some (matched, args)

  unfoldable pub after_word : Option (Text × Text) → Option (Text × Text)
  unfolding with_args
  after_word none = none
  after_word (some (matched, rest)) = with_args matched (match_args rest)

  -- One alternative of the pattern.
  unfoldable pub match_command : Text → Text → Option (Text × Text)
  unfolding after_word
  match_command command s = after_word (match_word command s)

  unfoldable pub or_match : Option (Text × Text) → Option (Text × Text) → Option (Text × Text)
  or_match (some m) later = some m
  or_match none later = later

  -- The alternatives from left to right.
  unfoldable pub match_any : List Text → Text → Option (Text × Text)
  unfolding or_match
  match_any [] s = none
  match_any (c ∷ cs) s = or_match (match_command c s) (match_any cs s)

  abbrev or_text : Option Text → Text → Text
  or_text none t = t
  or_text (some s) t = s

  unfoldable pub parsed : Lookup → Option (Text × Text) → Option Command
  parsed l none = none
  parsed l (some (matched, args)) =
      some (record { command = or_text (spelling (casefold matched) l) matched; args = args })

  -- `_match_bang_command`
  unfoldable pub match_bang_command : Text → Lookup → Option Command
  unfolding parsed
  match_bang_command [] l = none
  match_bang_command (c ∷ s) l =
      if c == 33 then parsed l (match_any (longest_first (values l)) s) else none

  -- What may part a mention from the command.
  unfoldable pub after_mention : Text → Option Text
  after_mention [] = none
  after_mention (c ∷ []) = if is_space c then some (lstrip is_space (c ∷ [])) else none
  after_mention (c ∷ d ∷ s) =
      if is_space c
      then some (lstrip is_space (c ∷ d ∷ s))
      else if c == 58 && is_space d
      then some (lstrip is_space (d ∷ s))
      else none

  -- `_consume_mxid_mention_prefix`
  unfoldable pub consume_mxid : Text → Text → Option Text
  unfolding after_mention
  consume_mxid message bot_mxid =
      if starts_with message bot_mxid then after_mention (drop (length bot_mxid) message) else none

  -- `_consume_display_name_prefix`
  unfoldable pub consume_display_name : Text → Text → Option Text
  unfolding after_mention
  consume_display_name message display_name =
      if is_empty display_name
      then none
      else if starts_with (lower message) (lower display_name)
      then after_mention (drop (length display_name) message)
      else none

  unfoldable pub bang_after : Lookup → Option Text → Option Command
  bang_after l none = none
  bang_after l (some suffix) = match_bang_command suffix l

  unfoldable pub or_command : Option Command → Option Command → Option Command
  or_command (some c) later = some c
  or_command none later = later

  -- A pass over the bodies, behind a mention that `consume` takes off.
  unfoldable pub first_mentioned : (Text → Option Text) → Lookup → List Text → Option Command
  unfolding bang_after or_command
  first_mentioned consume l [] = none
  first_mentioned consume l (body ∷ bodies) =
      or_command (bang_after l (consume body)) (first_mentioned consume l bodies)

  plain_or_mentioned : Option Text → Lookup → Text → Option Command
  unfolding or_command bang_after
  plain_or_mentioned none l body = match_bang_command body l
  plain_or_mentioned (some mxid) l body =
      or_command (match_bang_command body l) (bang_after l (consume_mxid body mxid))

  unfoldable pub first_plain : Option Text → Lookup → List Text → Option Command
  unfolding plain_or_mentioned or_command
  first_plain mxid l [] = none
  first_plain mxid l (body ∷ bodies) =
      or_command (plain_or_mentioned mxid l body) (first_plain mxid l bodies)

  unfoldable pub by_display_name : Option Text → Lookup → List Text → Option Command
  by_display_name none l bodies = none
  by_display_name (some name) l bodies =
      first_mentioned (λ body. consume_display_name body name) l bodies

  unfoldable pub mentioned : Option Text → Option Text → Lookup → List Text → Option Command
  unfolding by_display_name or_command
  mentioned none name l bodies = none
  mentioned (some mxid) name l bodies =
      or_command (first_mentioned (λ body. consume_mxid body mxid) l bodies)
        (by_display_name name l bodies)

  unfoldable pub parse_with : Option Text → Option Text → Bool → Lookup → List Text → Option Command
  unfolding mentioned
  parse_with mxid name require_mention [] bodies = none
  parse_with mxid name require_mention (k ∷ l) bodies =
      if require_mention
      then mentioned mxid name (k ∷ l) bodies
      else first_plain mxid (k ∷ l) bodies

  -- `_parse_matrix_message_command`, of the bodies that `_extract_candidate_bodies` gives; `mxid` and
  -- `name` are the bot's, stripped, and `none` where they are missing or empty.
  unfoldable pub parse_matrix_message_command :
      Option Text → Option Text → Bool → List Value → List Text → Option Command
  unfolding parse_with
  parse_matrix_message_command mxid name require_mention commands bodies =
      parse_with mxid name require_mention (build_command_lookup commands) bodies
