-- ===== src/Relaying/Sending.antt =====
-- How a text becomes requests to the queue: matrix/events.py and `send_reply_to_meshtastic` of
-- matrix/replies.py do the same, with another function to call.
use meshtastic_matrix_relay.Prelude.{
  ℕ, suc, Bool, true, false, Option, none, some, List, [], ◌∷◌, map, length, ltb, if◌then◌else◌, ℤ,
  pos, Result, ok, err,
}
use meshtastic_matrix_relay.Text.{Text, codes}
use meshtastic_matrix_relay.PyValue.{
  Value, null, bool, int, str, Fields, end, field, get, or_default, truthy,
}
use meshtastic_matrix_relay.Fragments.{Settings, SplitError, split_text_for_meshtastic}
use meshtastic_matrix_relay.Fragments.Config.{get_message_fragmentation_config}
use meshtastic_matrix_relay.MessageMap.{Mapping}
use meshtastic_matrix_relay.MessageQueue.Delivery.Receipts.{create_delivery_info}
use meshtastic_matrix_relay.RoomMapping.{set_field}
use meshtastic_matrix_relay.Replies.{strip_quoted_lines}
use meshtastic_matrix_relay.Replies.Interactions.{get_msgs_to_keep_config}
use meshtastic_matrix_relay.Relaying.{Event, Facade, Sender, Request}
use meshtastic_matrix_relay.Relaying.Rooms.{section_or_end}

abbrev is_no_destination : Option Value → Bool
is_no_destination none = true
is_no_destination (some null) = true
is_no_destination (some (str [])) = true
is_no_destination (some v) = false

-- `_meshtastic_destination_kwargs`
unfoldable pub destination_kwargs : Fields → Fields
destination_kwargs room =
    if is_no_destination (get room (codes "meshtastic_destination"))
    then end
    else field (codes "destinationId") (or_default (get room (codes "meshtastic_destination")) null)
        (if truthy (or_default (get room (codes "meshtastic_want_ack")) (bool true))
          then field (codes "wantAck") (bool true) end
          else end)

-- `apply_delivery_ack_kwargs`
unfoldable pub apply_delivery_ack_kwargs : Fields → Option Fields → Fields
apply_delivery_ack_kwargs kwargs none = kwargs
apply_delivery_ack_kwargs kwargs (some end) = kwargs
apply_delivery_ack_kwargs kwargs (some (field k v fs)) =
    if truthy (or_default (get (field k v fs) (codes "request_ack")) (bool true))
    then set_field (codes "wantAck") (bool true) kwargs
    else kwargs

-- `_create_mapping_info`, where the number to keep is given.
unfoldable pub create_mapping_info : Facade → Text → Text → Text → Text → ℤ → Option Mapping
create_mapping_info f [] room_id text meshnet keep = none
create_mapping_info f (c ∷ e) [] text meshnet keep = none
create_mapping_info f (c ∷ e) (d ∷ r) [] meshnet keep = none
create_mapping_info f (c ∷ e) (d ∷ r) (b ∷ t) meshnet keep = some (record {
  matrix_event_id = c ∷ e;
  room_id = d ∷ r;
  text = strip_quoted_lines f.strings (b ∷ t);
  meshnet = some meshnet;
  msgs_to_keep = keep;
})

abbrev connected_channel : Bool → Option Value → Option ℕ
connected_channel is_connected (some (int (pos n))) = if is_connected then some n else none
connected_channel is_connected _ = none

-- `_get_meshtastic_interface_and_channel`: the channel, where there is an interface too.
unfoldable pub interface_and_channel : Facade → Fields → Option ℕ
interface_and_channel f room =
    connected_channel f.is_connected (get room (codes "meshtastic_channel"))

abbrev pub meshtastic_section : Fields → Fields
meshtastic_section config = section_or_end (get config (codes "meshtastic"))

-- `get_meshtastic_config_value(config, "broadcast_enabled", True)`, as a truth value.
unfoldable pub broadcast_enabled : Fields → Bool
broadcast_enabled config =
    truthy (or_default (get (meshtastic_section config) (codes "broadcast_enabled")) (bool true))

abbrev pub fragmentation : Facade → Fields → Option Settings
fragmentation f config =
    get_message_fragmentation_config f.strings.parse_int f.strings.parse_float (some config)

abbrev pub delay_of : Option Settings → Option ℕ
delay_of none = some 0
delay_of (some s) = some s.fragment_delay

-- What all fragments of a message have in common.
pub record Route : Type 0 where
  pub config : Fields
  pub room : Fields
  pub room_id : Text
  pub sender : Sender
  pub channel : ℕ
  pub storage_enabled : Bool
  pub local_meshnet : Text

unfoldable pub fragment_request : Facade → Route → Event → Option ℕ → Option Fields → Text → Request
unfolding create_mapping_info
fragment_request f r event delay delivery fragment = record {
  send = r.sender;
  payload = fragment;
  channel = r.channel;
  send_kwargs = apply_delivery_ack_kwargs (destination_kwargs r.room) delivery;
  mapping_info =
      if r.storage_enabled
      then create_mapping_info f event.event_id r.room_id fragment r.local_meshnet
          (get_msgs_to_keep_config (Value.dict r.config))
      else none;
  delivery_info = delivery;
  min_delay = delay;
}

-- The requests for the fragments, where no delivery info raises an exception.
unfoldable pub with_delivery :
    Facade → Route → Event → List Text → Option (Option Fields) → Option (List Request)
with_delivery f r event [] delivery = some []
with_delivery f r event (t ∷ ts) none = none
with_delivery f r event (t ∷ ts) (some delivery) = some (
    map
      (fragment_request f r event
        (if ltb 1 (length (t ∷ ts)) then delay_of (fragmentation f r.config) else none) delivery)
      (t ∷ ts))

unfoldable pub of_split :
    Facade → Route → Event → Result SplitError (List Text) → Option (List Request)
unfolding with_delivery
of_split f r event (err e) = none
of_split f r event (ok fragments) = with_delivery f r event fragments (
    create_delivery_info f.strings.parse_float f.strings.show r.room_id event.event_id
      (some r.config))

-- The requests for a message; `none` is an exception.
unfoldable pub planned : Facade → Route → Event → Text → Option (List Request)
unfolding of_split
planned f r event message =
    of_split f r event (split_text_for_meshtastic f.ops message (fragmentation f r.config))

-- The requests are made in turn, until one is refused: those that are made, and whether all were
-- accepted. The first one is the nth request of the handler.
unfoldable pub queue_all : Facade → ℕ → List Request → List Request × Bool
queue_all f n [] = ([], true)
queue_all f n (r ∷ rs) =
    let rest = queue_all f (suc n) rs in
    if f.accepts n then (r ∷ rest.0, rest.1) else (r ∷ [], false)
