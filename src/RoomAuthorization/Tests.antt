-- ===== src/RoomAuthorization/Tests.antt =====
-- Tests of the room authorization, in a room of version 12 and in an older one. `parse` reads
-- numerals of at most two digits.
use meshtastic_matrix_relay.Prelude.{
  ◌+◌, ◌-◌, ◌*◌, ◌≡◌, ◌≢◌, ◌↔◌, refl, true, false, Option, none, some, [], ◌∷◌, ℤ, pos, arith,
}
use meshtastic_matrix_relay.Text.{Text, codes, mem_text, text_eq}
use meshtastic_matrix_relay.PyValue.{
  bool, int, str, list, dict, Items, nil, cons, Fields, end, field, get,
}
use meshtastic_matrix_relay.RoomAuthorization.{
  Response, fetched, creator_names, room_version, creators_of, creators_from_state, level_grants,
  event_grants, state_grants, is_authorized_in_room,
}
use meshtastic_matrix_relay.RoomAuthorization.Creators.{IsCreator, creators_from_state_lem}
use meshtastic_matrix_relay.RoomAuthorization.Power.{Entitled, is_authorized_in_room_lem}

abbrev parse : Text → Option ℤ
parse (c ∷ []) = some (pos (c - 48))
parse (c ∷ d ∷ []) = some (pos ((c - 48) * 10 + (d - 48)))
parse _ = none

abbrev create : Text → Fields
create version = field (codes "type") (str (codes "m.room.create")) (
    field (codes "sender") (str (codes "@ann")) (
      field (codes "content")
        (dict (
          field (codes "room_version") (str version) (
            field (codes "additional_creators")
              (list (cons (str (codes "@bob")) (cons (int (pos 3)) nil))) end)))
        end))

abbrev power_levels : Fields
power_levels = field (codes "type") (str (codes "m.room.power_levels")) (
    field (codes "state_key") (str []) (
      field (codes "content")
        (dict (
          field (codes "users")
            (dict (field (codes "@cat") (str (codes "50")) (field (codes "@dan") (bool true) end)))
            end))
        end))

abbrev room : Text → Items
room version = cons (int (pos 7)) (cons (dict (create version)) (cons (dict power_levels) nil))

abbrev new_room : Text → Response
new_room room_id = fetched (room (codes "12"))

abbrev old_room : Text → Response
old_room room_id = fetched (room (codes "11"))

abbrev here : Text
here = codes "!here"

creator_may :
    (is_authorized_in_room parse (some new_room) here (codes "@bob") (pos 100) []).0 ≡ true
unfolding is_authorized_in_room creators_from_state creators_of room_version creator_names mem_text
    text_eq get
creator_may = refl

old_creator_may_not :
    (is_authorized_in_room parse (some old_room) here (codes "@bob") (pos 50) []).0 ≡ false
unfolding is_authorized_in_room creators_from_state creators_of room_version creator_names mem_text
    text_eq get state_grants event_grants level_grants
old_creator_may_not = refl

moderator_may :
    (is_authorized_in_room parse (some old_room) here (codes "@cat") (pos 50) []).0 ≡ true
unfolding is_authorized_in_room creators_from_state creators_of room_version creator_names mem_text
    text_eq get state_grants event_grants level_grants
moderator_may = refl

boolean_level_may_not :
    (is_authorized_in_room parse (some old_room) here (codes "@dan") (pos 0) []).0 ≡ false
unfolding is_authorized_in_room creators_from_state creators_of room_version creator_names mem_text
    text_eq get state_grants event_grants level_grants
boolean_level_may_not = refl

creators_from_state_lem_example :
    (mem_text (codes "@bob") (creators_from_state parse (room (codes "12"))) ≡ true)
    ↔ IsCreator parse (codes "@bob") (room (codes "12"))
creators_from_state_lem_example = creators_from_state_lem parse (codes "@bob") (room (codes "12"))

is_authorized_in_room_lem_example :
    ((is_authorized_in_room parse (some old_room) here (codes "@cat") (pos 50) []).0 ≡ true)
    ↔ Entitled parse (codes "@cat") (pos 50) (old_room here)
is_authorized_in_room_lem_example =
    is_authorized_in_room_lem parse (some old_room) here (codes "@cat") (pos 50) []

there_is_not_here : codes "!there" ≢ here
there_is_not_here e = ground arith
