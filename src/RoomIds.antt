-- ===== src/RoomIds.antt =====
-- matrix/room_ids.py: which values are room IDs and room aliases. `str.isspace` and the test of an
-- IPv6 literal (`ipaddress.IPv6Address` raises no ValueError) are parameters. A text has no lone
-- surrogates, so that it always encodes.
pub mod Partition
pub mod Grammar
mod Tests
use meshtastic_matrix_relay.Prelude.{
  ℕ, zero, suc, ◌+◌, ◌-◌, ◌*◌, Bool, true, false, ◌&&◌, ◌||◌, not, List, [], ◌∷◌, length, ltb, leb,
  ◌==◌, if◌then◌else◌,
}
use meshtastic_matrix_relay.Text.{Text, utf8_len}
use meshtastic_matrix_relay.PyValue.{Value, str}

-- `s.partition(d)` for one character: the part before it, whether it is there, the part after it.
abbrev cons_before : ℕ → Text × Bool × Text → Text × Bool × Text
cons_before c (before, there, after) = (c ∷ before, there, after)

unfoldable pub partition : ℕ → Text → Text × Bool × Text
partition d [] = ([], false, [])
partition d (c ∷ s) = if c == d then ([], true, s) else cons_before c (partition d s)

-- `d in s`
unfoldable pub has : ℕ → Text → Bool
has d [] = false
has d (c ∷ s) = c == d || has d s

abbrev cons_first : ℕ → List Text → List Text
cons_first c [] = (c ∷ []) ∷ []
cons_first c (t ∷ ts) = (c ∷ t) ∷ ts

-- `s.split(d)`
unfoldable pub split : ℕ → Text → List Text
split d [] = [] ∷ []
split d (c ∷ s) = if c == d then [] ∷ split d s else cons_first c (split d s)

abbrev pub all : (ℕ → Bool) → Text → Bool
all p [] = true
all p (c ∷ s) = p c && all p s

abbrev pub is_digit : ℕ → Bool
is_digit c = leb 48 c && leb c 57

abbrev pub is_alnum : ℕ → Bool
is_alnum c = is_digit c || ((leb 65 c && leb c 90) || (leb 97 c && leb c 122))

abbrev pub is_empty : Text → Bool
is_empty [] = true
is_empty (c ∷ s) = false

-- The rest of a label: letters, digits and dashes, and no dash at the end.
unfoldable pub label_rest : Text → Bool
label_rest [] = true
label_rest (c ∷ []) = is_alnum c
label_rest (c ∷ d ∷ s) = (is_alnum c || c == 45) && label_rest (d ∷ s)

-- `_DOMAIN_LABEL.fullmatch`
unfoldable pub domain_label : Text → Bool
unfolding label_rest
domain_label [] = false
domain_label (c ∷ s) = is_alnum c && label_rest s

abbrev all_labels : List Text → Bool
all_labels [] = true
all_labels (t ∷ ts) = domain_label t && all_labels ts

-- A character of `_V12_LOCALPART`.
abbrev pub is_v12 : ℕ → Bool
is_v12 c = is_alnum c || (c == 95 || c == 45)

-- `int(s)` of ASCII digits.
abbrev pub decimal : ℕ → Text → ℕ
decimal n [] = n
decimal n (c ∷ s) = decimal (n * 10 + (c - 48)) s

unfoldable pub valid_port : Text → Bool
valid_port port =
    not (is_empty port)
    && (leb (length port) 5
        && (all is_digit port && (leb 1 (decimal 0 port) && leb (decimal 0 port) 65535)))

after_bracket : Text → Bool
after_bracket [] = true
after_bracket (c ∷ port) = c == 58 && valid_port port

named_server : Text × Bool × Text → Bool
named_server (host, separator, port) =
    not (is_empty host)
    && (not (separator && has 58 port)
        && (all_labels (split 46 host)
            && (leb (length host) 255 && (not separator || valid_port port))))

unfoldable pub valid_length : Text → Bool
valid_length s = leb (utf8_len s) 255

module _ (is_ipv6 : Text → Bool) where
  bracketed_server : Text × Bool × Text → Bool
  unfolding after_bracket
  bracketed_server (literal, close, suffix) =
      close && (not (has 37 literal) && (is_ipv6 literal && after_bracket suffix))

  -- `_valid_server_name`
  unfoldable pub valid_server_name : Text → Bool
  unfolding bracketed_server named_server
  valid_server_name [] = false
  valid_server_name (c ∷ s) =
      if c == 91 then bracketed_server (partition 93 s) else named_server (partition 58 (c ∷ s))

module _ (is_space : ℕ → Bool) where
  -- Neither white space nor a control character.
  abbrev pub is_plain : ℕ → Bool
  is_plain c = not (is_space c || (ltb c 32 || c == 127))

module _ (is_ipv6 : Text → Bool) where
  unfoldable pub id_parts : Text → Text × Bool × Text → Bool
  id_parts s (localpart, separator, domain) =
      not (is_empty localpart)
      && (valid_length s
          && (if separator then valid_server_name is_ipv6 domain else all is_v12 localpart))

  unfoldable pub alias_parts : Text → Text × Bool × Text → Bool
  alias_parts s (localpart, separator, domain) =
      not (is_empty localpart)
      && (separator && (valid_length s && valid_server_name is_ipv6 domain))

module _ (is_space : ℕ → Bool) (is_ipv6 : Text → Bool) where
  text_is_id : Text → Bool
  unfolding id_parts
  text_is_id [] = false
  text_is_id (c ∷ s) =
      all (is_plain is_space) (c ∷ s) && (c == 33 && id_parts is_ipv6 (c ∷ s) (partition 58 s))

  text_is_alias : Text → Bool
  unfolding alias_parts
  text_is_alias [] = false
  text_is_alias (c ∷ s) =
      all (is_plain is_space) (c ∷ s) && (c == 35 && alias_parts is_ipv6 (c ∷ s) (partition 58 s))

  unfoldable pub is_room_id : Value → Bool
  unfolding text_is_id
  is_room_id (str s) = text_is_id s
  is_room_id _ = false

  unfoldable pub is_room_alias : Value → Bool
  unfolding text_is_alias
  is_room_alias (str s) = text_is_alias s
  is_room_alias _ = false
