-- ===== src/RoomAuthorization.antt =====
-- matrix/room_authorization.py: who may run commands in a room. The homeserver's answer to
-- `room_get_state`, a timeout and an exception included, is a parameter; so is what `int()` reads
-- in a string.
mod FirstOf
pub mod Creators
pub mod Power
pub mod Cache
mod Tests
use meshtastic_matrix_relay.Prelude.{
  Bool, true, false, ◌&&◌, ◌||◌, Option, none, some, List, [], ◌∷◌, ◌++◌, if◌then◌else◌, ℤ, pos,
  ltb_ℤ, leb_ℤ,
}
use meshtastic_matrix_relay.Text.{Text, codes, mem_text, text_eq}
use meshtastic_matrix_relay.PyValue.{
  Value, null, int, str, list, dict, Items, nil, cons, Fields, end, get, or_default, as_dict,
  as_items, text_is, int_of,
}

-- `fetched` is a `RoomGetStateResponse`; `failed` is every other answer, an exception or a timeout.
pub data Response : Type 0 where
  fetched : Items → Response
  failed : Response

-- `_creator_cache`
abbrev pub Cache : Type 0
Cache = List (Text × List Text)

unfoldable pub lookup : Cache → Text → Option (List Text)
lookup [] room_id = none
lookup ((r, creators) ∷ cache) room_id =
    if text_eq r room_id then some creators else lookup cache room_id

abbrev pub store : Text → List Text → Cache → Cache
store room_id creators cache = (room_id, creators) ∷ cache

unfoldable pub creator_name : Value → List Text
creator_name (str (c ∷ t)) = (c ∷ t) ∷ []
creator_name _ = []

-- The non-empty strings among the candidates.
unfoldable pub creator_names : Items → List Text
unfolding creator_name
creator_names nil = []
creator_names (cons v vs) = creator_name v ++ creator_names vs

abbrev pub event_type : Fields → Value
event_type event = or_default (get event (codes "type")) null

abbrev pub is_create : Fields → Bool
is_create event = text_is (codes "m.room.create") (event_type event)

abbrev pub is_power_levels : Fields → Bool
is_power_levels event =
    text_is (codes "m.room.power_levels") (event_type event)
    && text_is [] (or_default (get event (codes "state_key")) null)

abbrev pub candidates : Fields → Fields → Items
candidates event content =
    cons (or_default (get event (codes "sender")) null)
      (as_items (or_default (get content (codes "additional_creators")) null))

-- `room.power_levels` of the client library, as far as it is readable.
pub record PowerLevels : Type 0 where
  pub users : Fields
  pub users_default : Value

module _ (parse : Text → Option ℤ) where
  or_one : Option ℤ → ℤ
  or_one none = pos 1
  or_one (some z) = z

  unfoldable pub room_version : Fields → ℤ
  unfolding or_one
  room_version content =
      or_one (int_of parse (or_default (get content (codes "room_version")) (int (pos 1))))

  content_creators : Fields → Option Fields → List Text
  content_creators event none = []
  content_creators event (some content) =
      if ltb_ℤ (room_version content) (pos 12) then [] else creator_names (candidates event content)

  -- What the first create event says.
  unfoldable pub creators_of : Fields → List Text
  unfolding content_creators
  creators_of event = content_creators event (as_dict (get event (codes "content")))

  unfoldable pub creators_from_state : Items → List Text
  creators_from_state nil = []
  creators_from_state (cons (dict event) vs) =
      if is_create event then creators_of event else creators_from_state vs
  creators_from_state (cons v vs) = creators_from_state vs

  reaches : ℤ → Option ℤ → Bool
  reaches min_level none = false
  reaches min_level (some level) = leb_ℤ min_level level

  unfoldable pub level_grants : ℤ → Value → Bool
  unfolding reaches
  level_grants min_level (int z) = leb_ℤ min_level z
  level_grants min_level (str s) = reaches min_level (parse s)
  level_grants min_level _ = false

  users_grant : Text → ℤ → Fields → Option Fields → Bool
  users_grant sender min_level content none = false
  users_grant sender min_level content (some users) = level_grants min_level (
      or_default (get users sender)
        (or_default (get content (codes "users_default")) (int (pos 0))))

  content_grants : Text → ℤ → Option Fields → Bool
  unfolding users_grant
  content_grants sender min_level none = false
  content_grants sender min_level (some content) =
      users_grant sender min_level content
        (as_dict (some (or_default (get content (codes "users")) (dict end))))

  -- What the first power-levels event says.
  unfoldable pub event_grants : Text → ℤ → Fields → Bool
  unfolding content_grants
  event_grants sender min_level event =
      content_grants sender min_level (as_dict (get event (codes "content")))

  unfoldable pub state_grants : Text → ℤ → Items → Bool
  state_grants sender min_level nil = false
  state_grants sender min_level (cons (dict event) vs) =
      if is_power_levels event
      then event_grants sender min_level event
      else state_grants sender min_level vs
  state_grants sender min_level (cons v vs) = state_grants sender min_level vs

  authorize : Text → Text → ℤ → Cache → Response → Bool × Cache
  authorize room_id sender min_level cache failed = (false, cache)
  authorize room_id sender min_level cache (fetched events) =
      let creators = creators_from_state events in
      (
        mem_text sender creators || state_grants sender min_level events,
        store room_id creators cache,
      )

  -- `none` is a client that is None; another one answers for a room.
  unfoldable pub is_authorized_in_room :
      Option (Text → Response) → Text → Text → ℤ → Cache → Bool × Cache
  unfolding authorize
  is_authorized_in_room none room_id sender min_level cache = (false, cache)
  is_authorized_in_room (some client) room_id sender min_level cache =
      authorize room_id sender min_level cache (client room_id)

  fetch_creators : Text → Cache → Option (Text → Response) → List Text × Cache
  fetch_creators room_id cache none = ([], cache)
  fetch_creators room_id cache (some client) = elim (client room_id) [
    | fetched events ↦
        (creators_from_state events, store room_id (creators_from_state events) cache)
    | failed ↦ ([], cache)
  ]

  known_creators : Option (Text → Response) → Text → Cache → Option (List Text) → List Text × Cache
  unfolding fetch_creators
  known_creators client room_id cache (some creators) = (creators, cache)
  known_creators client room_id cache none = fetch_creators room_id cache client

  unfoldable pub room_creators : Option (Text → Response) → Text → Cache → List Text × Cache
  unfolding known_creators
  room_creators client room_id cache = known_creators client room_id cache (lookup cache room_id)

  -- For diagnostics. `none` is a room without readable power levels, and the answer None.
  unfoldable pub sender_power_level : Option PowerLevels → Text → Option ℤ
  sender_power_level none sender = none
  sender_power_level (some levels) sender =
      int_of parse (or_default (get levels.users sender) levels.users_default)
