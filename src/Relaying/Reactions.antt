-- ===== src/Relaying/Reactions.antt =====
-- The reactions and the replies of `on_room_message`, with `handle_matrix_reply` and
-- `send_reply_to_meshtastic` of matrix/replies.py.
use meshtastic_matrix_relay.Prelude.{
  ℕ, zero, Bool, true, false, ◌&&◌, not, Option, none, some, List, [], ◌∷◌, if◌then◌else◌, ℤ,
}
use meshtastic_matrix_relay.Text.{Text, codes, text_eq}
use meshtastic_matrix_relay.PyValue.{Fields, str, truthy}
use meshtastic_matrix_relay.MessageMap.{Row, get_by_event, is_filled}
use meshtastic_matrix_relay.Replies.{format_reply_message}
use meshtastic_matrix_relay.Relaying.{
  Kind, emote, Event, Facade, Sender, send_text, send_text_reply, send_text_reaction, Request,
}
use meshtastic_matrix_relay.Relaying.Rooms.{text_at}
use meshtastic_matrix_relay.Relaying.Contents.{Content, parse_meshtastic_reply_id}
use meshtastic_matrix_relay.Relaying.Sending.{
  destination_kwargs, interface_and_channel, broadcast_enabled, meshtastic_section, Route, planned,
  queue_all,
}

-- `get_meshtastic_config_value(config, "meshnet_name", "")`
abbrev pub local_meshnet_name : Fields → Text
local_meshnet_name config = text_at (meshtastic_section config) (codes "meshnet_name")

abbrev is_emote : Kind → Bool
is_emote emote = true
is_emote _ = false

-- A reaction that another mesh has sent, with the id that it reacts to.
abbrev is_remote_reaction : Fields → Event → Content → Bool
is_remote_reaction config event c =
    (is_filled c.meshnet_name && not (text_eq c.meshnet_name (local_meshnet_name config)))
    && (truthy c.reply_id && is_emote event.kind)

-- The numeral of an id; none also where reading it raises an exception.
abbrev numeral : Option (Option ℤ) → Option ℤ
numeral (some (some z)) = some z
numeral _ = none

abbrev row_numeral : Facade → Option Row → Option ℤ
row_numeral f none = none
row_numeral f (some row) = numeral (parse_meshtastic_reply_id f (str row.meshtastic_id))

-- The id of the message on the mesh that a reaction is for.
unfoldable pub reaction_target : Facade → Fields → Event → Content → Option ℤ
reaction_target f config event c =
    if is_remote_reaction config event c
    then numeral (parse_meshtastic_reply_id f c.reply_id)
    else if is_filled c.original_event_id
    then row_numeral f (get_by_event f.map_fails c.original_event_id f.message_map)
    else none

abbrev pub reaction_request : Fields → Text → ℤ → ℕ → Request
reaction_request room emoji target channel = record {
  send = send_text_reaction target;
  payload = emoji;
  channel = channel;
  send_kwargs = destination_kwargs room;
  mapping_info = none;
  delivery_info = none;
  min_delay = none;
}

unfoldable pub with_channel : Fields → Fields → Text → ℤ → Option ℕ → List Request
with_channel config room emoji target none = []
with_channel config room emoji target (some channel) =
    if broadcast_enabled config then reaction_request room emoji target channel ∷ [] else []

unfoldable pub with_target : Facade → Fields → Fields → Text → Option ℤ → List Request
unfolding with_channel
with_target f config room emoji none = []
with_target f config room emoji (some target) =
    if is_filled emoji
    then with_channel config room emoji target (interface_and_channel f room)
    else []

-- The branch of the reactions, where they are on.
unfoldable pub relay_reaction : Facade → Fields → Fields → Event → Content → List Request
unfolding with_target
relay_reaction f config room event c =
    with_target f config room c.reaction_emoji (reaction_target f config event c)

abbrev pub planned_or_false : Facade → Option (List Request) → List Request × Bool
planned_or_false f none = ([], false)
planned_or_false f (some rs) = queue_all f zero rs

abbrev pub reply_route : Fields → Fields → Text → Bool → Sender → ℕ → Route
reply_route config room room_id storage sender channel = record {
  config = config;
  room = room;
  room_id = room_id;
  sender = sender;
  channel = channel;
  storage_enabled = storage;
  local_meshnet = local_meshnet_name config;
}

-- `send_reply_to_meshtastic`: the requests that are made, and its answer.
unfoldable pub send_reply :
    Facade → Fields → Fields → Text → Event → Bool → Sender → Text → Option ℕ → List Request × Bool
send_reply f config room room_id event storage sender message none = ([], false)
send_reply f config room room_id event storage sender message (some channel) =
    if broadcast_enabled config
    then planned_or_false f
        (planned f (reply_route config room room_id storage sender channel) event message)
    else ([], false)

abbrev or_missing : Option Text → Text
or_missing none = []
or_missing (some s) = s

abbrev pub reply_message : Facade → Fields → Event → Content → Text
reply_message f config event c =
    format_reply_message f.strings config f.display_name c.message c.longname
      (or_missing c.shortname) c.meshnet_name (local_meshnet_name config) c.mesh_text_override
      event.sender

abbrev pub reply_sender : Option ℤ → Sender
reply_sender none = send_text
reply_sender (some z) = send_text_reply z

unfoldable pub reply_to_id :
    Facade
    → Fields
    → Fields
    → Text
    → Event
    → Bool
    → Content
    → Option (Option ℤ)
    → Option (List Request × Bool)
unfolding send_reply
reply_to_id f config room room_id event storage c none = none
reply_to_id f config room room_id event storage c (some id) = some (
    send_reply f config room room_id event storage (reply_sender id)
      (reply_message f config event c) (interface_and_channel f room))

unfoldable pub reply_to_row :
    Facade
    → Fields
    → Fields
    → Text
    → Event
    → Bool
    → Content
    → Option Row
    → Option (List Request × Bool)
unfolding reply_to_id
reply_to_row f config room room_id event storage c none = some ([], false)
reply_to_row f config room room_id event storage c (some row) =
    reply_to_id f config room room_id event storage c
      (parse_meshtastic_reply_id f (str row.meshtastic_id))

-- `handle_matrix_reply`; `none` is an exception.
unfoldable pub handle_matrix_reply :
    Facade → Fields → Fields → Text → Event → Bool → Content → Option (List Request × Bool)
unfolding reply_to_row
handle_matrix_reply f config room room_id event storage c =
    reply_to_row f config room room_id event storage c
      (get_by_event f.map_fails c.reply_to_event_id f.message_map)
