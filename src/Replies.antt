-- ===== src/Replies.antt =====
-- matrix/replies.py and matrix/prefixes.py: the text of a reply that goes to the radio. A name that
-- is missing is the empty text, which the code treats alike. `str.format` (`none` is one of the
-- exceptions that the code catches), `str.splitlines`, `str` of a value and of a number are the
-- record `Strings`.
pub mod Interactions
pub mod Truncation
mod Tests
use meshtastic_matrix_relay.Prelude.{
  ℕ, zero, suc, ◌+◌, ◌-◌, ℤ, pos, negsuc, Bool, true, false, ◌&&◌, not, Option, none, some, List,
  [], ◌∷◌, ◌++◌, take, drop, length, leb, ◌==◌, if◌then◌else◌,
}
use meshtastic_matrix_relay.Text.{
  Text, codes, char_len, text_eq, starts_with, lstrip, rstrip, strip,
}
use meshtastic_matrix_relay.PyValue.{
  Value, Fields, null, bool, int, str, dict, end, get, or_default, as_dict, truthy,
}
use meshtastic_matrix_relay.Fragments.{Settings}
use meshtastic_matrix_relay.Fragments.Config.{get_message_fragmentation_config}

pub record Strings : Type 0 where
  pub is_space : ℕ → Bool
  pub splitlines : Text → List Text
  pub show : Value → Text
  pub decimal : ℕ → Text
  pub format : Text → List (Text × Text) → Option Text
  pub parse_int : Text → Option ℤ
  pub parse_float : Text → Option ℤ

-- The first bytes of the encoded text, without the character that they cut.
unfoldable pub first_bytes : ℕ → Text → Text
first_bytes n [] = []
first_bytes n (c ∷ s) =
    let rest = first_bytes (n - char_len c) s in if leb (char_len c) n then c ∷ rest else []

-- `truncate_message`; `none` is the ValueError.
unfoldable pub truncate_message : Text → ℤ → Option Text
unfolding first_bytes
truncate_message text (negsuc n) = none
truncate_message text (pos zero) = some []
truncate_message text (pos (suc n)) = some (first_bytes (suc n) text)

abbrev pub or_name : Text → Text → Text
or_name [] t = t
or_name (c ∷ s) t = c ∷ s

abbrev pub is_missing : Text → Bool
is_missing [] = true
is_missing (c ∷ s) = false

abbrev fields_or_end : Option Fields → Fields
fields_or_end none = end
fields_or_end (some fs) = fs

-- `config.get(name)`, and `{}` for what is no dict.
abbrev pub section_of : Fields → Text → Fields
section_of config name = fields_or_end (as_dict (get config name))

abbrev is_quoted : Text → Bool
is_quoted [] = false
is_quoted (c ∷ s) = c == 62

abbrev spaced : Text → Text → Text
spaced line [] = line
spaced line (c ∷ s) = line ++ (codes " " ++ (c ∷ s))

-- The lines that are kept, joined by single spaces.
unfoldable pub joined_lines : (ℕ → Bool) → List Text → Text
joined_lines is_space [] = []
joined_lines is_space (line ∷ lines) =
    let rest = joined_lines is_space lines in
    let stripped = strip is_space line in
    if is_quoted stripped then rest else if is_missing stripped then rest else spaced stripped rest

-- `_add_truncated_vars`, from a number on.
unfoldable pub truncated_vars : (ℕ → Text) → Text → Text → ℕ → ℕ → List (Text × Text)
truncated_vars decimal prefix text i zero = []
truncated_vars decimal prefix text i (suc more) =
    (prefix ++ decimal i, take i text) ∷ truncated_vars decimal prefix text (suc i) more

unfoldable pub has_colon : Text → Bool
has_colon [] = false
has_colon (c ∷ s) = let rest = has_colon s in if c == 58 then true else rest

unfoldable pub split_colon : Text → Text × Text
split_colon [] = ([], [])
split_colon (c ∷ s) = let rest = split_colon s in if c == 58 then ([], s) else (c ∷ rest.0, rest.1)

-- Localpart and server of a user id.
unfoldable pub user_parts : Text → Text × Text
unfolding has_colon split_colon
user_parts [] = ([], [])
user_parts (c ∷ s) = if (c == 64) && has_colon s then split_colon s else ([], [])

module _ (strings : Strings) where
  open strings use {is_space, splitlines, show, decimal, format, parse_int, parse_float}

  -- `strip_quoted_lines`
  unfoldable pub strip_quoted_lines : Text → Text
  unfolding joined_lines
  strip_quoted_lines text = strip is_space (joined_lines is_space (splitlines text))

  -- `str(value)`, or the default for a missing or null format.
  abbrev format_or : Option Value → Text → Text
  format_or none default = default
  format_or (some null) default = default
  format_or (some v) default = show v

  abbrev formatted_or : Option Text → Text → Text
  formatted_or none default = default
  formatted_or (some s) default = s

  meshtastic_vars : Text → Text → List (Text × Text)
  unfolding truncated_vars user_parts
  meshtastic_vars display_name user_id =
      (codes "display", display_name)
      ∷ (codes "user", user_id)
      ∷ (codes "username", (user_parts user_id).0)
      ∷ (codes "server", (user_parts user_id).1)
      ∷ truncated_vars decimal (codes "display") display_name 1 20

  -- `get_meshtastic_prefix` of a config that is a dict.
  unfoldable pub get_meshtastic_prefix : Fields → Text → Text → Text
  unfolding meshtastic_vars
  get_meshtastic_prefix config display_name user_id =
      let meshtastic = section_of config (codes "meshtastic") in
      if truthy (or_default (get meshtastic (codes "prefix_enabled")) (bool true))
      then formatted_or
          (format (format_or (get meshtastic (codes "prefix_format")) (codes "{display5}[M]: "))
            (meshtastic_vars display_name user_id))
          (take 5 display_name ++ codes "[M]: ")
      else []

  matrix_vars : Text → Text → Text → List (Text × Text)
  unfolding truncated_vars
  matrix_vars longname shortname meshnet_name =
      (codes "long", longname)
      ∷ (codes "short", shortname)
      ∷ (codes "mesh", meshnet_name)
      ∷ (truncated_vars decimal (codes "long") longname 1 20
          ++ truncated_vars decimal (codes "mesh") meshnet_name 1 20)

  -- `get_matrix_prefix`
  unfoldable pub get_matrix_prefix : Fields → Text → Text → Text → Text
  unfolding matrix_vars
  get_matrix_prefix config longname shortname meshnet_name =
      let matrix = section_of config (codes "matrix") in
      if truthy (or_default (get matrix (codes "prefix_enabled")) (bool true))
      then formatted_or
          (format (format_or (get matrix (codes "prefix_format")) (codes "[{long}/{mesh}]: "))
            (matrix_vars longname shortname meshnet_name))
          (codes "[" ++ (longname ++ (codes "/" ++ (meshnet_name ++ codes "]: "))))
      else []

  -- The first prefix that the text has is taken off.
  unfoldable pub without_prefix : List Text → Text → Text
  without_prefix [] text = text
  without_prefix (candidate ∷ candidates) text =
      let rest = without_prefix candidates text in
      if not (is_missing candidate) && starts_with text candidate
      then lstrip is_space (drop (length candidate) text)
      else rest

  abbrev prefix_candidates : Text → Text → Text → Text → Text → Text → List Text
  prefix_candidates long short mesh mesh4 full brief =
      (codes "[" ++ (long ++ (codes "/" ++ (mesh ++ codes "]: "))))
      ∷ (codes "[" ++ (long ++ (codes "/" ++ (mesh4 ++ codes "]: "))))
      ∷ (long ++ (codes "/" ++ (mesh ++ codes ": ")))
      ∷ (long ++ (codes "/" ++ (mesh4 ++ codes ": ")))
      ∷ (short ++ (codes "/" ++ (mesh ++ codes ": ")))
      ∷ (short ++ (codes "/" ++ (mesh4 ++ codes ": ")))
      ∷ full
      ∷ brief
      ∷ []

  abbrev pub fragments : Option Settings → Bool
  fragments none = false
  fragments (some s) = s.enabled

  -- `get_message_fragmentation_config(config)["enabled"]`
  unfoldable pub is_fragmented : Fields → Bool
  is_fragmented config =
      fragments (get_message_fragmentation_config parse_int parse_float (some config))

  abbrev pub truncated : Option Text → Text
  truncated none = []
  truncated (some s) = s

  unfoldable pub sendable : Fields → Text → Text
  unfolding truncate_message
  sendable config message =
      if is_fragmented config then message else truncated (truncate_message message (pos 227))

  -- `strip_quoted_lines(override).strip()` in the place of an empty text.
  abbrev or_override : Text → Text → Text
  or_override [] [] = []
  or_override [] (c ∷ override) = strip is_space (strip_quoted_lines (c ∷ override))
  or_override (c ∷ clean) override = c ∷ clean

  abbrev reply_body : Text → Text
  reply_body [] = []
  reply_body (c ∷ clean) = codes " " ++ (c ∷ clean)

  -- A reply to a sender of another mesh.
  unfoldable pub remote_reply : Fields → Text → Text → Text → Text → Text → Text
  unfolding without_prefix strip_quoted_lines
  remote_reply config clean sender_long sender_short meshnet_name override =
      let mesh4 = take 4 meshnet_name in
      let full = get_matrix_prefix config sender_long sender_short meshnet_name in
      let brief = get_matrix_prefix config sender_long sender_short mesh4 in
      let candidates = prefix_candidates sender_long sender_short meshnet_name mesh4 full brief in
      let body = or_override (without_prefix candidates clean) override in
      strip is_space (
        or_name brief (or_name full (sender_short ++ (codes "/" ++ (mesh4 ++ codes ":"))))
        ++ reply_body body)

  abbrev local_reply : Text → Text → Text
  local_reply prefix [] = rstrip is_space prefix
  local_reply prefix (c ∷ clean) = prefix ++ (c ∷ clean)

  unfoldable pub reply_text : Fields → Text → Text → Text → Text → Text → Text → Text → Text → Text
  unfolding remote_reply strip_quoted_lines
  reply_text config full_display_name text longname shortname meshnet_name local_meshnet_name
        override user_id =
      let clean = strip is_space (strip_quoted_lines (or_name override text)) in
      let sender_long =
        or_name longname (or_name full_display_name (or_name shortname (codes "???"))) in
      let sender_short = or_name shortname (or_name (take 3 sender_long) (codes "???")) in
      if not (is_missing meshnet_name)
        && (not (is_missing local_meshnet_name) && not (text_eq meshnet_name local_meshnet_name))
      then remote_reply config clean sender_long sender_short meshnet_name override
      else local_reply (get_meshtastic_prefix config full_display_name user_id) clean

  -- `format_reply_message`
  unfoldable pub format_reply_message :
      Fields → Text → Text → Text → Text → Text → Text → Text → Text → Text
  unfolding reply_text sendable
  format_reply_message config full_display_name text longname shortname meshnet_name
        local_meshnet_name override user_id =
      sendable config (
        reply_text config full_display_name text longname shortname meshnet_name local_meshnet_name
          override user_id)
