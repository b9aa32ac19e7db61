-- ===== src/Relaying/Rooms.antt =====
-- The guards of `on_room_message` that come before the content: the stale events of a start, and the
-- room's configuration; and the plugins that a room outside the configuration belongs to.
use meshtastic_matrix_relay.Prelude.{
  ℕ, ◌+◌, ◌-◌, Bool, true, false, ◌&&◌, ◌||◌, not, Option, none, some, List, [], ◌∷◌, leb, ltb,
  if◌then◌else◌,
}
use meshtastic_matrix_relay.Text.{Text, codes, text_eq, strip}
use meshtastic_matrix_relay.PyValue.{
  Value, null, Items, Fields, nil, cons, end, field, str, dict, list, get, or_default, as_dict,
  truthy, text_is,
}
use meshtastic_matrix_relay.Relaying.{Kind, reaction, Event, Plugin, Facade, Action, asks}

-- `rollback_ms > MATRIX_CLOCK_ROLLBACK_DISABLE_MS`, with `_estimate_clock_rollback_ms`.
unfoldable pub rollback_detected : Facade → Bool
rollback_detected f = ltb (f.now_ms + 60000) (f.bot_start_time + f.elapsed_estimate_ms)

-- Whether an event is dropped as one from before the start.
unfoldable pub is_stale : Facade → ℕ → Bool
unfolding rollback_detected
is_stale f timestamp =
    ltb timestamp f.bot_start_time
    && ((leb 946684800000 timestamp && leb 946684800000 f.bot_start_time)
        && (leb f.elapsed_since_start_ms 120000
            && (not (rollback_detected f) && ltb 300000 (f.bot_start_time - timestamp))))

-- `room_conf.get("id") == room_id`, for a dict.
abbrev pub has_id : Text → Fields → Bool
has_id room_id room = text_is room_id (or_default (get room (codes "id")) null)

unfoldable pub room_in_list : Text → Items → Option Fields
room_in_list room_id nil = none
room_in_list room_id (cons (dict room) rooms) =
    let rest = room_in_list room_id rooms in if has_id room_id room then some room else rest
room_in_list room_id (cons _ rooms) = room_in_list room_id rooms

unfoldable pub room_in_dict : Text → Fields → Option Fields
room_in_dict room_id end = none
room_in_dict room_id (field k (dict room) rooms) =
    let rest = room_in_dict room_id rooms in
    if text_eq k room_id || has_id room_id room then some room else rest
room_in_dict room_id (field k _ rooms) =
    let rest = room_in_dict room_id rooms in if text_eq k room_id then none else rest

abbrev or_search : Option Fields → Option Fields → Option Fields
or_search (some room) searched = some room
or_search none searched = searched

-- An empty configuration counts as none.
abbrev pub nonempty_room : Option Fields → Option Fields
nonempty_room none = none
nonempty_room (some end) = none
nonempty_room (some (field k v fs)) = some (field k v fs)

unfoldable pub room_config : Value → Text → Option Fields
unfolding room_in_list room_in_dict
room_config (dict rooms) room_id =
    nonempty_room (or_search (as_dict (get rooms room_id)) (room_in_dict room_id rooms))
room_config (list rooms) room_id = nonempty_room (room_in_list room_id rooms)
room_config _ room_id = none

-- `event.sender == bot_user_id`
unfoldable pub is_bot : Facade → Event → Bool
is_bot f event = text_is event.sender f.bot_user_id

-- `content.get(MATRIX_SUPPRESS_KEY)`
unfoldable pub is_suppressed : Event → Bool
is_suppressed event = truthy (or_default (get event.content (codes "mmrelay_suppress")) null)

unfoldable pub declares : Text → Items → Bool
declares room_id nil = false
declares room_id (cons v vs) = text_is room_id v || declares room_id vs

abbrev declared_in : Text → Value → Bool
declared_in room_id (list rooms) = declares room_id rooms
declared_in room_id _ = false

-- `_plugins_owning_room` of one room.
unfoldable pub plugins_owning_room : Text → List Plugin → List Plugin
unfolding declares
plugins_owning_room room_id [] = []
plugins_owning_room room_id (p ∷ plugins) =
    let rest = plugins_owning_room room_id plugins in
    if p.handles_unmapped_rooms && declared_in room_id p.unmapped_room_ids then p ∷ rest else rest

-- The plugins are asked in turn until one claims the text.
unfoldable pub ask_plugins : Text → List Plugin → List Action × Bool
ask_plugins body [] = ([], false)
ask_plugins body (p ∷ plugins) =
    let rest = ask_plugins body plugins in
    if p.claims body
    then (asks p.plugin_name body ∷ [], true)
    else (asks p.plugin_name body ∷ rest.0, rest.1)

abbrev pub first_text : Text → Text → Text
first_text [] t = t
first_text (c ∷ s) t = c ∷ s

abbrev pub text_at : Fields → Text → Text
text_at content key = text_or_empty (get content key)
  where
    text_or_empty : Option Value → Text
    text_or_empty (some (str s)) = s
    text_or_empty _ = []

abbrev pub asked_of : Text → List Plugin → List Action
asked_of [] owners = []
asked_of (c ∷ s) owners = (ask_plugins (c ∷ s) owners).0

abbrev pub is_reaction_event : Kind → Bool
is_reaction_event reaction = true
is_reaction_event _ = false

-- `_dispatch_unmapped_room_message`
unfoldable pub dispatch_unmapped_room_message : Facade → Text → Event → List Action
unfolding plugins_owning_room ask_plugins is_suppressed
dispatch_unmapped_room_message f room_id event =
    if is_reaction_event event.kind
    then []
    else if is_suppressed event
    then []
    else asked_of
        (strip f.strings.is_space (first_text event.body (text_at event.content (codes "body"))))
        (plugins_owning_room room_id f.plugins)

-- `_portal_access_config` and `_channel_writer_allowed`
unfoldable pub is_writer : Text → Items → Bool
is_writer sender nil = false
is_writer sender (cons v vs) = text_is sender v || is_writer sender vs

abbrev allowed_by : Text → Option Value → Bool
allowed_by sender (some (list writers)) = is_writer sender writers
allowed_by sender _ = true

abbrev pub section_or_end : Option Value → Fields
section_or_end (some (dict fs)) = fs
section_or_end _ = end

abbrev pub portals : Fields → Fields
portals config = section_or_end (get config (codes "meshtastic_portals"))

unfoldable pub channel_writer_allowed : Text → Fields → Bool
unfolding is_writer
channel_writer_allowed sender config =
    allowed_by sender
      (get (section_or_end (get (portals config) (codes "access"))) (codes "channel_writers"))

-- `room_config.get("meshtastic_portal_type") == kind`, of `is_control_room` and
-- `_is_channel_portal_room`.
unfoldable pub is_portal : Text → Fields → Bool
is_portal kind room = text_is kind (or_default (get room (codes "meshtastic_portal_type")) null)

-- `commands_allowed_in_portal_rooms`, with `control_config`.
unfoldable pub commands_allowed_in_portal_rooms : Fields → Bool
commands_allowed_in_portal_rooms config = truthy (
    or_default
      (get (section_or_end (get (portals config) (codes "control")))
        (codes "allow_commands_in_portal_rooms"))
      (Value.bool true))
