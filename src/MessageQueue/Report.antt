-- ===== src/MessageQueue/Report.antt =====
-- `_record_sent_history`, `get_status` and `drain` of message_queue.py.
use meshtastic_matrix_relay.Prelude.{
  ℕ, ◌-◌, Bool, true, false, ◌||◌, not, Option, none, some, List, [], ◌∷◌, map, ltb, if◌then◌else◌,
  length, take,
}
use meshtastic_matrix_relay.Text.{Text}
use meshtastic_matrix_relay.MessageQueue.{
  Queue, QueuedMessage, MappingInfo, HistoryRecord, Status, sent_history_limit,
  queued_description_limit,
}
use meshtastic_matrix_relay.MessageQueue.Lifecycle.{task_active}

-- `if isinstance(value, str) and value`
abbrev non_empty : Text → Option Text
non_empty [] = none
non_empty (c ∷ t) = some (c ∷ t)

abbrev history_text : Option MappingInfo → Option Text
history_text none = none
history_text (some i) = non_empty (take 180 i.text)

abbrev history_room : Option MappingInfo → Option Text
history_room none = none
history_room (some i) = non_empty i.room_id

abbrev history_event : Option Text → Option Text
history_event none = none
history_event (some e) = non_empty e

unfoldable pub history_record : QueuedMessage → Status → HistoryRecord
history_record m s = record {
  status = s;
  description = m.description;
  text = history_text m.mapping_info;
  room_id = history_room m.mapping_info;
  event_id = history_event m.delivery_event;
}

-- `appendleft` on a deque of bounded length drops its last entry.
unfoldable pub record_sent_history : QueuedMessage → Status → Queue → Queue
record_sent_history m s q = record q {
  sent_history = take sent_history_limit (history_record m s ∷ q.sent_history);
}

pub record StatusReport : Type 0 where
  pub running : Bool
  pub queue_size : ℕ
  pub message_delay : ℕ
  pub stop_failed : Bool
  pub processor_task_active : Bool
  pub time_since_last_send : Option ℕ
  pub in_flight : Bool
  pub current_description : Option Text
  pub queued_descriptions : List Text
  pub queued_descriptions_truncated : Bool
  pub dropped_messages : ℕ
  pub sent_history : List HistoryRecord

unfoldable pub get_status : Queue → ℕ → StatusReport
get_status q now = record {
  running = q.running;
  queue_size = length q.messages;
  message_delay = q.message_delay;
  stop_failed = q.stop_failed;
  processor_task_active = task_active q;
  time_since_last_send = if ltb 0 q.last_send_mono then some (now - q.last_send_mono) else none;
  in_flight = q.in_flight;
  current_description = q.current_description;
  queued_descriptions = map (λ m. m.description) (take queued_description_limit q.messages);
  queued_descriptions_truncated = ltb queued_description_limit (length q.messages);
  dropped_messages = q.dropped_messages;
  sent_history = q.sent_history;
}

abbrev any_message : List QueuedMessage → Bool
any_message [] = false
any_message (m ∷ ms) = true

-- `deadline is not None and time.monotonic() > deadline`
abbrev past : Option ℕ → ℕ → Bool
past none now = false
past (some d) now = ltb d now

-- One round of `drain`; `none` means that it sleeps and looks again.
unfoldable pub drain_round : Option ℕ → ℕ → Queue → Option Bool
drain_round deadline now q =
    if any_message q.messages || (q.in_flight || q.has_current)
    then (if not q.running then some false else if past deadline now then some false else none)
    else some true
