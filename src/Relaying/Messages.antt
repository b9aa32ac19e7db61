-- ===== src/Relaying/Messages.antt =====
-- The relaying of a message, and the whole of `on_room_message`.
use meshtastic_matrix_relay.MessageMap.{is_filled}
use meshtastic_matrix_relay.Prelude.{
  ℕ, zero, Bool, true, false, ◌&&◌, ◌||◌, not, Option, none, some, List, [], ◌∷◌, ◌++◌, take, drop,
  length, if◌then◌else◌, pos,
}
use meshtastic_matrix_relay.Text.{Text, codes, text_eq, starts_with}
use meshtastic_matrix_relay.PyValue.{Value, Fields, null, end, str, get, or_default}
use meshtastic_matrix_relay.PacketRouting.{detection_sensor_enabled}
use meshtastic_matrix_relay.Replies.{
  get_matrix_prefix, get_meshtastic_prefix, sendable, truncated, truncate_message,
}
use meshtastic_matrix_relay.Replies.Interactions.{
  Interactions, get_interaction_settings, message_storage_enabled,
}
use meshtastic_matrix_relay.Relaying.{
  Event, Plugin, Facade, send_text, send_data, Request, Action, controls, refuses, queues,
}
use meshtastic_matrix_relay.Relaying.Rooms.{
  is_stale, is_bot, is_suppressed, room_config, dispatch_unmapped_room_message,
  channel_writer_allowed, is_portal, commands_allowed_in_portal_rooms, ask_plugins, first_text,
}
use meshtastic_matrix_relay.Relaying.Contents.{Content, read_content, is_detection_port}
use meshtastic_matrix_relay.Relaying.Sending.{
  interface_and_channel, broadcast_enabled, planned, queue_all,
}
use meshtastic_matrix_relay.Relaying.Reactions.{
  local_meshnet_name, relay_reaction, handle_matrix_reply, reply_route,
}

-- A prefix is taken off where the text has it.
abbrev without : Text → Text → Text
without [] message = message
without (c ∷ p) message =
    if starts_with message (c ∷ p) then drop (length (c ∷ p)) message else message

abbrev short_or : Option Text → Text → Text
short_or (some s) longname = s
short_or none longname = take 3 longname

-- The text of a message from another mesh, without its prefix there.
unfoldable pub remote_text : Facade → Fields → Content → Text
remote_text f config c = truncated f.strings (
    truncate_message
      (first_text
        (without
          (get_matrix_prefix f.strings config c.longname (short_or c.shortname c.longname)
            c.meshnet_name)
          (first_text c.mesh_text_override c.message))
        c.mesh_text_override)
      (pos 227))

abbrev pub remote_prefix : Facade → Fields → Content → Text
remote_prefix f config c =
    get_matrix_prefix f.strings config c.longname (short_or c.shortname c.longname)
      (take 4 c.meshnet_name)

-- The text that plugins see, and the one that is sent.
unfoldable pub outgoing : Facade → Fields → Event → Content → Option (Text × Text)
outgoing f config event c =
    if is_filled c.longname && is_filled c.meshnet_name
    then if text_eq c.meshnet_name (local_meshnet_name config)
      then none
      else if is_filled (remote_text f config c)
      then some (
        remote_text f config c,
        sendable f.strings config (remote_prefix f config c ++ remote_text f config c),
      )
      else none
    else some (
      c.message,
      sendable f.strings config
          (get_meshtastic_prefix f.strings config f.display_name event.sender ++ c.message),
    )

abbrev pub is_prefix_id : Value → Text → Bool
is_prefix_id (str id) message = starts_with message id
is_prefix_id _ message = false

abbrev pub any_matches : List Plugin → Bool
any_matches [] = false
any_matches (p ∷ plugins) = p.matches || any_matches plugins

abbrev pub sensor_request : Text → ℕ → Request
sensor_request message channel = record {
  send = send_data;
  payload = message;
  channel = channel;
  send_kwargs = end;
  mapping_info = none;
  delivery_info = none;
  min_delay = none;
}

abbrev pub sensor_on : Text → Option ℕ → List Request
sensor_on message none = []
sensor_on message (some channel) = sensor_request message channel ∷ []

-- `_handle_detection_sensor_packet`
unfoldable pub handle_detection_sensor_packet : Facade → Fields → Fields → Text → List Request
handle_detection_sensor_packet f config room message =
    if broadcast_enabled config
    then if detection_sensor_enabled (some config)
      then sensor_on message (interface_and_channel f room)
      else []
    else []

abbrev pub made : Facade → ℕ → Option (List Request) → List Request
made f n none = []
made f n (some rs) = (queue_all f n rs).0

unfoldable pub on_channel :
    Facade → Fields → Fields → Text → Event → Bool → Text → ℕ → Option ℕ → List Request
on_channel f config room room_id event storage full n none = []
on_channel f config room room_id event storage full n (some channel) =
    if broadcast_enabled config
    then made f n (planned f (reply_route config room room_id storage send_text channel) event full)
    else []

-- What is sent of a message that no plugin takes.
unfoldable pub relay_text :
    Facade → Fields → Fields → Text → Event → Bool → Text × Text → ℕ → List Request
unfolding on_channel handle_detection_sensor_packet
relay_text f config room room_id event storage (message, full) n =
    if is_detection_port f (or_default (get event.content (codes "meshtastic_portnum")) null)
    then handle_detection_sensor_packet f config room message
    else on_channel f config room room_id event storage full n (interface_and_channel f room)

abbrev pub queued : List Request → List Action
queued [] = []
queued (r ∷ rs) = queues r ∷ queued rs

abbrev pub unless_claimed : Bool → List Action → List Action
unless_claimed true actions = []
unless_claimed false actions = actions

unfoldable pub offer :
    Facade → Fields → Fields → Text → Event → Bool → Text × Text → ℕ → List Action
unfolding relay_text
offer f config room room_id event storage (message, full) n =
    if commands_allowed_in_portal_rooms config
    then (ask_plugins message f.plugins).0
      ++ unless_claimed ((ask_plugins message f.plugins).1 || any_matches f.plugins)
          (queued (relay_text f config room room_id event storage (message, full) n))
    else if starts_with message (codes "!") || is_prefix_id f.bot_user_id message
    then []
    else queued (relay_text f config room room_id event storage (message, full) n)

-- The rest of the handler for what is neither a reaction nor a reply that was sent, after n requests.
unfoldable pub relay_message :
    Facade → Fields → Fields → Text → Event → Bool → Content → ℕ → List Action
unfolding offer outgoing
relay_message f config room room_id event storage c n = offered (outgoing f config event c)
  where
    offered : Option (Text × Text) → List Action
    offered none = []
    offered (some texts) = offer f config room room_id event storage texts n

unfoldable pub after_reply :
    Facade
    → Fields
    → Fields
    → Text
    → Event
    → Bool
    → Content
    → Option (List Request × Bool)
    → List Action
unfolding relay_message
after_reply f config room room_id event storage c none = []
after_reply f config room room_id event storage c (some (rs, true)) = queued rs
after_reply f config room room_id event storage c (some (rs, false)) =
    queued rs ++ relay_message f config room room_id event storage c (length rs)

unfoldable pub reply_or_message :
    Facade → Fields → Fields → Text → Event → Interactions → Content → List Action
unfolding after_reply
reply_or_message f config room room_id event interactions c =
    if is_filled c.reply_to_event_id && interactions.replies
    then after_reply f config room room_id event (message_storage_enabled interactions) c
        (handle_matrix_reply f config room room_id event (message_storage_enabled interactions) c)
    else relay_message f config room room_id event (message_storage_enabled interactions) c zero

unfoldable pub bridge :
    Facade → Fields → Fields → Text → Event → Interactions → Content → List Action
unfolding reply_or_message
bridge f config room room_id event interactions c =
    if c.is_reaction
    then if interactions.reactions then queued (relay_reaction f config room event c) else []
    else reply_or_message f config room room_id event interactions c

unfoldable pub in_room : Facade → Fields → Fields → Text → Event → Content → List Action
unfolding bridge
in_room f config room room_id event c =
    if is_suppressed event
    then []
    else if is_portal (codes "control") room
    then controls ∷ []
    else if is_portal (codes "channel") room && not (channel_writer_allowed event.sender config)
    then if c.is_reaction then [] else refuses ∷ []
    else bridge f config room room_id event (get_interaction_settings (Value.dict config)) c

unfoldable pub with_config : Facade → Option Fields → Fields → Text → Event → List Action
unfolding in_room
with_config f none room room_id event = []
with_config f (some config) room room_id event =
    in_room f config room room_id event (read_content f.strings.is_space event)

unfoldable pub with_room : Facade → Option Fields → Text → Event → List Action
unfolding with_config
with_room f none room_id event = dispatch_unmapped_room_message f room_id event
with_room f (some room) room_id event = with_config f f.config room room_id event

-- `on_room_message`
unfoldable pub on_room_message : Facade → Text → Event → List Action
unfolding with_room
on_room_message f room_id event =
    if is_stale f event.server_timestamp
    then []
    else if is_bot f event
    then []
    else with_room f (room_config f.matrix_rooms room_id) room_id event
