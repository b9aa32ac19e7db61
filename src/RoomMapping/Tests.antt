-- ===== src/RoomMapping/Tests.antt =====
-- matrix/room_mapping.py on a list and on a dict.
use meshtastic_matrix_relay.Prelude.{
  ◌≡◌, refl, true, false, Option, none, some, [], ◌∷◌, if◌then◌else◌, pos, arith,
}
use meshtastic_matrix_relay.Text.{Text, codes, text_eq}
use meshtastic_matrix_relay.PyValue.{Value, int, str, list, dict, nil, cons, end, field, get}
use meshtastic_matrix_relay.RoomMapping.{
  is_room_alias, before_colon, extract_localpart_from_mxid, alias_or_id, set_entry,
  resolve_aliases_in_mapping, update_room_id_in_mapping,
}
use meshtastic_matrix_relay.RoomMapping.Entries.{ids}
use meshtastic_matrix_relay.RoomMapping.Resolving.{
  all_settled, all_answers, resolve_aliases_in_mapping-answers,
}

-- It knows one alias.
abbrev resolver : Text → Option Text
resolver alias = if text_eq alias (codes "#a:x") then some (codes "!1:x") else none

abbrev rooms : Value
rooms = list (
    cons (str (codes "#a:x")) (
      cons
        (dict (
          field (codes "meshtastic_channel") (int (pos 2))
            (field (codes "id") (str (codes "#a:x")) end)))
        (cons (str (codes "#b:x")) (cons (str (codes "!2:x")) nil))))

abbrev resolved_rooms : Value
resolved_rooms = list (
    cons (str (codes "!1:x")) (
      cons
        (dict (
          field (codes "meshtastic_channel") (int (pos 2))
            (field (codes "id") (str (codes "!1:x")) end)))
        (cons (str (codes "#b:x")) (cons (str (codes "!2:x")) nil))))

answers_no_alias :
    (alias room : Text) → resolver alias ≡ some room → is_room_alias (str room) ≡ false
unfolding is_room_alias
answers_no_alias alias [] h = refl
answers_no_alias alias (c ∷ s) h = grind arith

resolved_list : resolve_aliases_in_mapping resolver rooms ≡ resolved_rooms
unfolding resolve_aliases_in_mapping alias_or_id is_room_alias get text_eq set_entry
resolved_list = refl

updated_list : update_room_id_in_mapping rooms (codes "#a:x") (codes "!1:x") ≡ (
  list (
      cons (str (codes "!1:x")) (
        cons
          (dict (
            field
              (codes "meshtastic_channel")
              (int (pos 2))
              (field (codes "id") (str (codes "#a:x")) end)))
          (cons (str (codes "#b:x")) (cons (str (codes "!2:x")) nil)))),
  true,
)
unfolding update_room_id_in_mapping alias_or_id text_eq
updated_list = refl

localpart : extract_localpart_from_mxid (some (codes "@bot:x:80")) ≡ some (codes "bot")
unfolding extract_localpart_from_mxid before_colon
localpart = refl

resolve_aliases_in_mapping-answers_example :
    (ids (resolve_aliases_in_mapping resolver rooms) ≡ all_answers resolver (ids rooms))
    × (all_settled resolver (ids (resolve_aliases_in_mapping resolver rooms)) ≡ true)
    × (resolve_aliases_in_mapping resolver (resolve_aliases_in_mapping resolver rooms)
        ≡ resolve_aliases_in_mapping resolver rooms)
resolve_aliases_in_mapping-answers_example =
    resolve_aliases_in_mapping-answers resolver answers_no_alias rooms
