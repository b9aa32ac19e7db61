-- ===== src/MessageQueue.antt =====
-- message_queue.py: the rate-limited FIFO queue in front of the radio. This file has the data of
-- the module; `Lifecycle`, `Enqueue`, `Processor` and `Report` have its methods.
-- Times are whole milliseconds of the monotonic clock, counted from 1, so that 0 is "never".
pub mod Lifecycle
pub mod Enqueue
pub mod Report
pub mod Delivery
pub mod Processor
pub mod System
mod Tests
use meshtastic_matrix_relay.Prelude.{ℕ, Bool, false, Option, none, List, []}
use meshtastic_matrix_relay.Text.{Text}

-- constants/queue.py and constants/network.py
abbrev pub max_queue_size : ℕ
max_queue_size = 500

abbrev pub sent_history_limit : ℕ
sent_history_limit = 20

abbrev pub queued_description_limit : ℕ
queued_description_limit = 8

abbrev pub default_message_delay : ℕ
default_message_delay = 2500

abbrev pub queue_full_log_interval : ℕ
queue_full_log_interval = 5000

pub record MappingInfo : Type 0 where
  pub matrix_event_id : Text
  pub room_id : Text
  pub text : Text

-- `call` stands for `send_function` with its arguments, which the queue only passes on.
pub record QueuedMessage : Type 0 where
  pub timestamp : ℕ
  pub call : ℕ
  pub description : Text
  pub mapping_info : Option MappingInfo
  pub delivery_event : Option Text
  pub min_delay : Option ℕ

pub data Status : Type 0 where
  sent no_result error cancelled : Status

-- An entry of `_sent_history`.
pub record HistoryRecord : Type 0 where
  pub status : Status
  pub description : Text
  pub text : Option Text
  pub room_id : Option Text
  pub event_id : Option Text

-- The fields of `MessageQueue`. A task and an executor are known by their identity; `task_done`
-- is `Task.done()` of each task.
pub record Queue : Type 0 where
  pub messages : List QueuedMessage
  pub processor_task : Option ℕ
  pub task_done : ℕ → Bool
  pub running : Bool
  pub stopping : Bool
  pub last_send_mono : ℕ
  pub message_delay : ℕ
  pub executor : Option ℕ
  pub in_flight : Bool
  pub has_current : Bool
  pub dropped_messages : ℕ
  pub last_queue_full_log_time : Option ℕ
  pub stop_failed : Bool
  pub stop_logged : Bool
  pub current_description : Option Text
  pub sent_history : List HistoryRecord

-- `MessageQueue()`
abbrev pub init : Queue
init = record {
  messages = [];
  processor_task = none;
  task_done = λ _. false;
  running = false;
  stopping = false;
  last_send_mono = 0;
  message_delay = default_message_delay;
  executor = none;
  in_flight = false;
  has_current = false;
  dropped_messages = 0;
  last_queue_full_log_time = none;
  stop_failed = false;
  stop_logged = false;
  current_description = none;
  sent_history = [];
}
