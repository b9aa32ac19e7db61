-- ===== src/Relaying.antt =====
-- matrix/events.py: what an event in a Matrix room sets off. The event, its room and what the
-- handler reads or is answered meanwhile are records; what it does is a list of actions. A value of
-- an event that has another type than the code expects (a name that is no string, a relation that
-- is no object) counts as missing, and log messages and descriptions are left out.
pub mod Rooms
pub mod Contents
pub mod Sending
pub mod Reactions
pub mod Messages
pub mod Guards
pub mod Cases
pub mod SendCases
pub mod Bounds
pub mod InTurn
pub mod SplitPlans
pub mod OneReaction
mod Tests
use meshtastic_matrix_relay.Prelude.{
  ℕ, Bool, true, false, ◌||◌, Option, none, some, List, [], ◌∷◌, ◌++◌, ℤ,
}
use meshtastic_matrix_relay.Text.{Text}
use meshtastic_matrix_relay.PyValue.{Value, Fields}
use meshtastic_matrix_relay.Fragments.{StrOps}
use meshtastic_matrix_relay.MessageMap.{Table, Mapping}
use meshtastic_matrix_relay.Replies.{Strings}

-- The classes of event that the handler is registered for.
pub data Kind : Type 0 where
  room_text : Kind
  notice : Kind
  emote : Kind
  reaction : Kind

pub record Event : Type 0 where
  pub kind : Kind
  pub sender : Text
  pub event_id : Text
  pub server_timestamp : ℕ
  pub body : Text
  pub content : Fields

-- A loaded plugin: the rooms that it opts in for outside `matrix_rooms`, whether
-- `handle_room_message` claims a text (an exception does not), and the answer of `_matches_command`.
pub record Plugin : Type 0 where
  pub plugin_name : Text
  pub handles_unmapped_rooms : Bool
  pub unmapped_room_ids : Value
  pub claims : Text → Bool
  pub matches : Bool

-- What the handler reads and is answered: the module's state, the clocks (in milliseconds: the wall
-- clock, and the monotonic clock since the start at its two readings), the message map, the display
-- name of the sender, whether a radio is connected, and whether the queue accepts the nth request.
pub record Facade : Type 0 where
  pub strings : Strings
  pub ops : StrOps
  pub is_digit : Text → Bool
  pub int_text : Text → Option ℤ
  pub bot_user_id : Value
  pub bot_start_time : ℕ
  pub now_ms : ℕ
  pub elapsed_estimate_ms : ℕ
  pub elapsed_since_start_ms : ℕ
  pub matrix_rooms : Value
  pub config : Option Fields
  pub plugins : List Plugin
  pub message_map : Table
  pub map_fails : Bool
  pub display_name : Text
  pub is_connected : Bool
  pub accepts : ℕ → Bool

-- The function that the queue is to call.
pub data Sender : Type 0 where
  send_text : Sender
  send_text_reply : ℤ → Sender
  send_text_reaction : ℤ → Sender
  send_data : Sender

-- A call of `queue_message`.
pub record Request : Type 0 where
  pub send : Sender
  pub payload : Text
  pub channel : ℕ
  pub send_kwargs : Fields
  pub mapping_info : Option Mapping
  pub delivery_info : Option Fields
  pub min_delay : Option ℕ

pub data Action : Type 0 where
  asks : Text → Text → Action
  controls : Action
  refuses : Action
  queues : Request → Action

-- The requests among the actions.
unfoldable pub requests : List Action → List Request
requests [] = []
requests (queues r ∷ actions) = r ∷ requests actions
requests (_ ∷ actions) = requests actions
