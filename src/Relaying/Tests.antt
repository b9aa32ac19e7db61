-- ===== src/Relaying/Tests.antt =====
-- Tests.
-- matrix/events.py with one room, `!r`, on channel 1, and a bot `@b`.
use meshtastic_matrix_relay.Relaying.SplitPlans.{Delayed, planned-FragmentsFit}
use meshtastic_matrix_relay.Fragments.Split.{FragmentsFit, NeverAgrees, sent_text}
use meshtastic_matrix_relay.Fragments.Loop.{HasRoom}
use meshtastic_matrix_relay.MessageQueue.Delivery.Receipts.{
  create_delivery_info, get_delivery_receipts_config,
}
use meshtastic_matrix_relay.Fragments.Config.{get_message_fragmentation_config}
use meshtastic_matrix_relay.Relaying.Reactions.{
  relay_reaction, reaction_target, reply_route, send_reply, handle_matrix_reply,
}
use meshtastic_matrix_relay.Relaying.Sending.{
  interface_and_channel, broadcast_enabled, planned, queue_all, fragment_request, with_delivery,
}
use meshtastic_matrix_relay.Relaying.Rooms.{
  is_stale, is_bot, room_config, is_suppressed, is_portal, commands_allowed_in_portal_rooms,
  ask_plugins,
}
use meshtastic_matrix_relay.Prelude.{
  ◌≡◌, refl, true, false, none, some, List, [], ◌∷◌, map, pos, ◌==◌, ℕ, suc, ◌<◌, ◌⊎◌, length,
  arith,
}
use meshtastic_matrix_relay.Text.{Text, codes, text_eq, char_len, strip, utf8_len, rfind}
use meshtastic_matrix_relay.PyValue.{Fields, field, end, str, int, bool, dict, list, cons, nil, get}
use meshtastic_matrix_relay.Fragments.{
  split_text_for_meshtastic, split_enabled, fragment_rounds, split_body_chunks, chunk_loop,
  render_from, take_chunk, cut_chunk, largest_char_boundary, boundary_loop, best_text_cut,
  best_cut_from, format_prefix, format_template, Settings, default_prefix_template,
}
use meshtastic_matrix_relay.MessageMap.{Row, get_by_event, find_event}
use meshtastic_matrix_relay.Replies.{
  Strings, sendable, is_fragmented, get_meshtastic_prefix, format_reply_message, reply_text,
  strip_quoted_lines, joined_lines,
}
use meshtastic_matrix_relay.Replies.Interactions.{get_interaction_settings}
use meshtastic_matrix_relay.Relaying.{
  Event, Facade, room_text, reaction, send_text, send_text_reaction, Request, requests,
  send_text_reply, Sender,
}
use meshtastic_matrix_relay.Relaying.Contents.{
  is_reaction_to, read_content, is_detection_port, parse_meshtastic_reply_id,
}
use meshtastic_matrix_relay.Relaying.Messages.{on_room_message, reply_or_message, after_reply}
use meshtastic_matrix_relay.Relaying.Guards.{is_admitted, on_room_message-requests}
use meshtastic_matrix_relay.Relaying.Bounds.{AllFit, on_room_message-AllFit}
use meshtastic_matrix_relay.Relaying.InTurn.{payloads}
use meshtastic_matrix_relay.Relaying.OneReaction.{AtMostOne, on_room_message-AtMostOne}

abbrev strings : Strings
strings = record {
  is_space = λ c. c == 32;
  splitlines = λ s. s ∷ [];
  show = λ v. [];
  decimal = λ n. n ∷ [];
  format = λ s vars. none;
  parse_int = λ s. none;
  parse_float = λ s. none;
}

-- Messages go to a mesh named `m`, and reactions are on.
abbrev config : Fields
config =
    field (codes "meshtastic")
      (dict (
        field (codes "meshnet_name") (str (codes "m")) (
          field (codes "message_interactions") (dict (field (codes "reactions") (bool true) end))
            end)))
      end

abbrev room : Fields
room = field (codes "id") (str (codes "!r")) (field (codes "meshtastic_channel") (int (pos 1)) end)

abbrev row : Row
row = record {
  meshtastic_id = codes "7";
  event_id = codes "$a";
  room_id = codes "!r";
  text = codes "hi";
  meshnet = some (codes "m");
}

abbrev facade : Facade
facade = record {
  strings = strings;
  ops = record { is_space = λ c. c == 32; format = λ s i n. some [] };
  is_digit = λ s. true;
  int_text = λ s. some (pos 7);
  bot_user_id = str (codes "@b");
  bot_start_time = 0;
  now_ms = 0;
  elapsed_estimate_ms = 0;
  elapsed_since_start_ms = 0;
  matrix_rooms = list (cons (dict room) nil);
  config = some config;
  plugins = [];
  message_map = row ∷ [];
  map_fails = false;
  display_name = codes "Al";
  is_connected = true;
  accepts = λ n. n == 0;
}

abbrev said : Text → Fields → Event
said sender content = record {
  kind = room_text;
  sender = sender;
  event_id = codes "$e";
  server_timestamp = 5;
  body = codes "hi";
  content = content;
}

abbrev reacted : Event
reacted = record {
  kind = reaction;
  sender = codes "@a";
  event_id = codes "$f";
  server_timestamp = 5;
  body = [];
  content =
      field (codes "m.relates_to")
        (dict
          (field (codes "event_id") (str (codes "$a")) (field (codes "key") (str (codes "+")) end)))
        end;
}

text_goes_out :
    map (λ r. r.payload) (requests (on_room_message facade (codes "!r") (said (codes "@a") end)))
    ≡ codes "Al[M]: hi" ∷ []
unfolding requests on_room_message is_stale is_bot text_eq room_config get is_suppressed is_portal
    get_interaction_settings commands_allowed_in_portal_rooms ask_plugins is_detection_port
    interface_and_channel broadcast_enabled split_text_for_meshtastic read_content planned
    get_message_fragmentation_config create_delivery_info get_delivery_receipts_config queue_all
    fragment_request sendable is_fragmented get_meshtastic_prefix char_len strip
text_goes_out = refl

reaction_goes_out :
    map (λ r. r.send) (requests (on_room_message facade (codes "!r") reacted))
    ≡ send_text_reaction (pos 7) ∷ []
unfolding requests on_room_message is_stale is_bot text_eq room_config get is_suppressed is_portal
    get_interaction_settings commands_allowed_in_portal_rooms ask_plugins is_detection_port
    interface_and_channel broadcast_enabled relay_reaction reaction_target get_by_event find_event
    read_content parse_meshtastic_reply_id
reaction_goes_out = refl

on_room_message-requests_example :
    requests (on_room_message facade (codes "!r") (said (codes "@b") end)) ≡ []
unfolding is_admitted is_stale is_bot text_eq
on_room_message-requests_example =
    on_room_message-requests facade (codes "!r") (said (codes "@b") end) refl

on_room_message-AllFit_example :
    AllFit (requests (on_room_message facade (codes "!r") (said (codes "@a") end)))
unfolding is_fragmented get_message_fragmentation_config get text_eq
on_room_message-AllFit_example =
    on_room_message-AllFit facade (codes "!r") (said (codes "@a") end) refl

on_room_message-AtMostOne_example :
    AtMostOne facade reacted
      (read_content facade.strings.is_space reacted)
      (requests (on_room_message facade (codes "!r") reacted))
unfolding is_reaction_to
on_room_message-AtMostOne_example = on_room_message-AtMostOne facade (codes "!r") reacted refl

-- A mesh that takes 32 bytes at a time, and replies that are on.
abbrev split_config : Fields
split_config =
    field (codes "meshtastic")
      (dict (
        field (codes "message_fragmentation")
          (dict (
            field (codes "enabled") (bool true)
              (field (codes "max_payload_bytes") (int (pos 32)) end)))
          (field (codes "message_interactions") (dict (field (codes "replies") (bool true) end))
            end)))
      end

abbrev split_facade : Facade
split_facade = record facade { config = some split_config }

abbrev long_text : Text
long_text = codes "0123456789012345678901234 abcdefghijkl"

abbrev split_plan : List Request
split_plan =
    map
      (fragment_request split_facade
        (reply_route split_config room (codes "!r") true (send_text_reply (pos 7)) 1)
        (said (codes "@a") end) (some 15000) none)
      (codes "0123456789012345678901234" ∷ codes "abcdefghijkl" ∷ [])

-- A reply to the message of `row`.
abbrev replied_to : Event
replied_to =
    record (said (codes "@a") (
      field (codes "m.relates_to")
        (dict (
          field (codes "m.in_reply_to") (dict (field (codes "event_id") (str (codes "$a")) end))
            end))
        end)) { body = long_text }

-- The queue refuses the second fragment of the reply, and the text is relayed once more.
relayed_again :
    map {B = Sender × Text}
      (λ r. (r.send, r.payload))
      (requests (on_room_message split_facade (codes "!r") replied_to))
    ≡ (send_text_reply (pos 7), codes "Al[M]: 0123456789012345678901234")
      ∷ (send_text_reply (pos 7), codes "abcdefghijkl")
      ∷ (send_text, codes "Al[M]: 0123456789012345678901234")
      ∷ []
unfolding requests on_room_message is_stale is_bot text_eq room_config get is_suppressed is_portal
    get_interaction_settings commands_allowed_in_portal_rooms ask_plugins is_detection_port
    interface_and_channel broadcast_enabled split_text_for_meshtastic read_content planned
    get_message_fragmentation_config create_delivery_info get_delivery_receipts_config queue_all
    fragment_request sendable is_fragmented get_meshtastic_prefix char_len strip split_enabled
    utf8_len fragment_rounds split_body_chunks chunk_loop render_from take_chunk cut_chunk
    largest_char_boundary boundary_loop best_text_cut best_cut_from rfind format_prefix
    format_template with_delivery handle_matrix_reply send_reply format_reply_message reply_text
    strip_quoted_lines parse_meshtastic_reply_id get_by_event find_event joined_lines
    reply_or_message after_reply
relayed_again = refl

abbrev split_settings : Settings
split_settings = record {
  enabled = true;
  homoglyph_optimization = false;
  max_payload_bytes = 32;
  prefix_template = default_prefix_template;
  last_suffix_template = [];
  fragment_delay = 15000;
}

split_settings-HasRoom : (bound : ℕ) → HasRoom split_facade.ops split_settings bound
unfolding format_prefix text_eq utf8_len
split_settings-HasRoom bound i n _ _ = ground arith

split_route-planned :
    planned split_facade
      (reply_route split_config room (codes "!r") true (send_text_reply (pos 7)) 1)
      (said (codes "@a") end)
      long_text
    ≡ some split_plan
unfolding broadcast_enabled get text_eq planned split_text_for_meshtastic
    get_message_fragmentation_config split_enabled utf8_len char_len fragment_rounds
    split_body_chunks chunk_loop render_from take_chunk cut_chunk largest_char_boundary
    boundary_loop best_text_cut best_cut_from rfind strip format_prefix format_template
    with_delivery create_delivery_info get_delivery_receipts_config
split_route-planned = refl

planned-FragmentsFit_example :
    (FragmentsFit split_facade.ops split_settings
        (length (payloads split_plan))
        1
        (payloads split_plan)
      ⊎ NeverAgrees split_facade.ops split_settings 8
          (sent_text split_facade.ops split_settings long_text)
          1)
    × (1 < length (payloads split_plan) → Delayed 15000 split_plan)
unfolding get_message_fragmentation_config get text_eq
planned-FragmentsFit_example =
    planned-FragmentsFit split_facade
      (reply_route split_config room (codes "!r") true (send_text_reply (pos 7)) 1)
      (said (codes "@a") end) long_text split_settings split_plan refl refl
      (split_settings-HasRoom (suc (length (sent_text split_facade.ops split_settings long_text))))
      split_route-planned
