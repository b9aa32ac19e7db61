-- ===== src/RoomMapping.antt =====
-- matrix/room_mapping.py: the entries of `matrix_rooms`, a list or a dict, and the calls that put a
-- room id in the place of an alias. The generator of entries and setters is a walk over the entries
-- that changes one in its place. The resolver, which asks the homeserver, is a parameter, and an
-- exception of it is left out.
pub mod Entries
pub mod Resolving
mod Tests
use meshtastic_matrix_relay.Prelude.{
  ℕ, Bool, true, false, ◌&&◌, ◌||◌, not, Option, none, some, List, [], ◌∷◌, ◌==◌, if◌then◌else◌,
}
use meshtastic_matrix_relay.Text.{Text, codes, text_eq, starts_with, strip}
use meshtastic_matrix_relay.PyValue.{
  Value, Items, Fields, str, list, dict, nil, cons, end, field, get, or_default, text_is,
}

-- `_is_room_alias` of this module, which looks at the first character alone.
unfoldable pub is_room_alias : Value → Bool
is_room_alias (str []) = false
is_room_alias (str (c ∷ s)) = c == 35
is_room_alias _ = false

abbrev nonempty : Text → Option Text
nonempty [] = none
nonempty (c ∷ s) = some (c ∷ s)

-- `_get_valid_device_id`
unfoldable pub get_valid_device_id : (ℕ → Bool) → Value → Option Text
get_valid_device_id is_space (str s) = nonempty (strip is_space s)
get_valid_device_id is_space _ = none

unfoldable pub before_colon : Text → Text
before_colon [] = []
before_colon (c ∷ s) = let rest = before_colon s in if c == 58 then [] else c ∷ rest

-- `_extract_localpart_from_mxid`
unfoldable pub extract_localpart_from_mxid : Option Text → Option Text
extract_localpart_from_mxid none = none
extract_localpart_from_mxid (some []) = some []
extract_localpart_from_mxid (some (c ∷ s)) = if c == 64 then some (before_colon s) else some (c ∷ s)

-- What the generator yields for an entry.
unfoldable pub alias_or_id : Value → Value
alias_or_id (dict entry) = or_default (get entry (codes "id")) (str [])
alias_or_id v = v

-- `target[key] = value`
unfoldable pub set_field : Text → Value → Fields → Fields
set_field key v end = field key v end
set_field key v (field k w fs) =
    let rest = set_field key v fs in if text_eq k key then field k v fs else field k w rest

-- The setter of an entry.
unfoldable pub set_entry : Text → Value → Value
unfolding set_field
set_entry new_id (dict entry) = dict (set_field (codes "id") (str new_id) entry)
set_entry new_id _ = str new_id

unfoldable pub item_mapped : Text → Items → Bool
item_mapped room nil = false
item_mapped room (cons v vs) = text_is room (alias_or_id v) || item_mapped room vs

unfoldable pub value_mapped : Text → Fields → Bool
value_mapped room end = false
value_mapped room (field k v fs) = text_is room (alias_or_id v) || value_mapped room fs

-- `_is_room_mapped`
unfoldable pub is_room_mapped : Value → Text → Bool
unfolding item_mapped value_mapped
is_room_mapped (list vs) room = item_mapped room vs
is_room_mapped (dict fs) room = value_mapped room fs
is_room_mapped _ room = false

module _ (resolver : Text → Option Text) where
  abbrev put_answer : Option Text → Value → Value
  put_answer none v = v
  put_answer (some []) v = v
  put_answer (some (c ∷ s)) v = set_entry (c ∷ s) v

  unfoldable pub resolve_alias : Value → Value → Value
  resolve_alias (str alias) v =
      if is_room_alias (str alias) then put_answer (resolver alias) v else v
  resolve_alias _ v = v

  unfoldable pub resolve_entry : Value → Value
  unfolding resolve_alias
  resolve_entry v = resolve_alias (alias_or_id v) v

  unfoldable pub resolve_items : Items → Items
  unfolding resolve_entry
  resolve_items nil = nil
  resolve_items (cons v vs) = cons (resolve_entry v) (resolve_items vs)

  unfoldable pub resolve_values : Fields → Fields
  unfolding resolve_entry
  resolve_values end = end
  resolve_values (field k v fs) = field k (resolve_entry v) (resolve_values fs)

  -- `_resolve_aliases_in_mapping`
  unfoldable pub resolve_aliases_in_mapping : Value → Value
  unfolding resolve_items resolve_values
  resolve_aliases_in_mapping (list vs) = list (resolve_items vs)
  resolve_aliases_in_mapping (dict fs) = dict (resolve_values fs)
  resolve_aliases_in_mapping v = v

unfoldable pub update_items : Text → Text → Items → Items × Bool
unfolding set_entry
update_items alias resolved_id nil = (nil, false)
update_items alias resolved_id (cons v vs) =
    let rest = update_items alias resolved_id vs in
    if text_is alias (alias_or_id v)
    then (cons (set_entry resolved_id v) vs, true)
    else (cons v rest.0, rest.1)

unfoldable pub update_values : Text → Text → Fields → Fields × Bool
unfolding set_entry
update_values alias resolved_id end = (end, false)
update_values alias resolved_id (field k v fs) =
    let rest = update_values alias resolved_id fs in
    if text_is alias (alias_or_id v)
    then (field k (set_entry resolved_id v) fs, true)
    else (field k v rest.0, rest.1)

abbrev as_list : Items × Bool → Value × Bool
as_list (vs, found) = (list vs, found)

abbrev as_mapping : Fields × Bool → Value × Bool
as_mapping (fs, found) = (dict fs, found)

-- `_update_room_id_in_mapping`: the mapping after it, and its answer.
unfoldable pub update_room_id_in_mapping : Value → Text → Text → Value × Bool
unfolding update_items update_values
update_room_id_in_mapping (list vs) alias resolved_id = as_list (update_items alias resolved_id vs)
update_room_id_in_mapping (dict fs) alias resolved_id =
    as_mapping (update_values alias resolved_id fs)
update_room_id_in_mapping v alias resolved_id = (v, false)
