-- ===== src/MessageQueue/Delivery.antt =====
-- message_queue.py, the reactions that tell a Matrix user what became of a message: the tracking of
-- one queued message. Whether the event loop is still open when a reaction or a timeout is scheduled
-- is an argument of the steps, and so is the moment at which a timeout comes.
pub mod Answers
pub mod Timeouts
pub mod Receipts
mod Tests
use meshtastic_matrix_relay.Prelude.{
  ℕ, zero, suc, ltb, Bool, true, false, ◌&&◌, ◌||◌, not, Option, none, some, List, [], ◌∷◌, ◌++◌,
  if◌then◌else◌, ℤ, pos, leb_ℤ,
}
use meshtastic_matrix_relay.Text.{Text, codes}
use meshtastic_matrix_relay.PyValue.{
  Value, null, bool, float, dict, Fields, end, field, get, get_in, or_default, as_dict, text_is,
  truthy, float_of,
}

-- A reaction, by the key of its emoji in the delivery info.
pub data Reaction : Type 0 where
  sent ack nak timeout : Reaction

-- Whose `onResponse` stands in the keyword arguments of the send.
pub data Listener : Type 0 where
  nobody caller queue : Listener

-- A `_state` dict, with the number of `_timeout` coroutines that sleep and hold it.
pub record Flag : Type 0 where
  pub done : Bool
  pub sleeping : ℕ

-- `states` are the `_state` dicts made so far, the current one first.
pub record Tracking : Type 0 where
  pub info : Fields
  pub has_loop : Bool
  pub states : List Flag
  pub want_ack : Bool
  pub listener : Listener

abbrev pub is_tracked : Fields → Bool
is_tracked end = false
is_tracked (field k v fs) = true

abbrev pub request_ack : Fields → Bool
request_ack info = truthy (or_default (get info (codes "request_ack")) (bool true))

-- `setdefault`
listen : Listener → Listener
listen nobody = queue
listen caller = caller
listen queue = queue

-- `_prepare_delivery_tracking`
unfoldable pub prepare : Tracking → Tracking
unfolding listen
prepare t =
    if not (is_tracked t.info)
    then t
    else if request_ack t.info
    then record t {
      has_loop = true;
      states = record { done = false; sleeping = 0 } ∷ t.states;
      want_ack = true;
      listener = listen t.listener;
    }
    else record t { has_loop = true; states = record { done = false; sleeping = 0 } ∷ t.states }

abbrev pub key : Reaction → Text
key sent = codes "sent"
key ack = codes "ack"
key nak = codes "nak"
key timeout = codes "timeout"

abbrev filled : Option Value → Bool
filled v = truthy (or_default v null)

-- `_send_delivery_reaction`
unfoldable pub send_delivery_reaction : Tracking → Bool → Reaction → List Reaction
send_delivery_reaction t loop_open reaction =
    if filled (get t.info (codes "room_id"))
      && (filled (get t.info (codes "event_id"))
          && (filled (get_in (as_dict (get t.info (codes "reactions"))) (key reaction))
              && (t.has_loop && loop_open)))
    then reaction ∷ []
    else []

abbrev pub finish_current : List Flag → List Flag
finish_current [] = []
finish_current (s ∷ states) = record s { done = true } ∷ states

abbrev pub current_done : List Flag → Bool
current_done [] = false
current_done (s ∷ states) = s.done

-- One more coroutine sleeps over the current state.
abbrev pub sleep_over : List Flag → List Flag
sleep_over [] = []
sleep_over (s ∷ states) = record s { sleeping = suc s.sleeping } ∷ states

-- `errorReason` of the packet: an acknowledgement, or the opposite.
abbrev pub verdict : Value → Reaction
verdict reason = if truthy reason && not (text_is (codes "NONE") reason) then nak else ack

abbrev error_reason : Value → Value
error_reason packet =
    or_default
      (get_in
        (as_dict
          (get_in (as_dict (get_in (as_dict (some packet)) (codes "decoded"))) (codes "routing")))
        (codes "errorReason"))
      null

answered : Tracking → Value → Bool → Listener → Tracking × List Reaction
answered t packet loop_open queue = (
  record t { states = finish_current t.states },
  send_delivery_reaction t loop_open (verdict (error_reason packet)),
)
answered t packet loop_open _ = (t, [])

-- `_on_response`, which the radio's library calls if it is the listener.
unfoldable pub on_response : Tracking → Value → Bool → Tracking × List Reaction
unfolding answered
on_response t packet loop_open = answered t packet loop_open t.listener

-- A coroutine that holds the state wakes up.
wake_flag : ℕ → Flag → Flag
wake_flag zero s = s
wake_flag (suc n) s = record { done = true; sleeping = n }

unfoldable pub wake_at : ℕ → List Flag → List Flag
unfolding wake_flag
wake_at i [] = []
wake_at zero (s ∷ states) = wake_flag s.sleeping s ∷ states
wake_at (suc i) (s ∷ states) = s ∷ wake_at i states

-- Whether it finds its state not done.
unfoldable pub unanswered_at : ℕ → List Flag → Bool
unanswered_at i [] = false
unanswered_at zero (s ∷ states) = ltb 0 s.sleeping && not s.done
unanswered_at (suc i) (s ∷ states) = unanswered_at i states

-- The end of `_timeout`.
unfoldable pub expire : Tracking → ℕ → Bool → Tracking × List Reaction
expire t i loop_open = (
  record t { states = wake_at i t.states },
  (if unanswered_at i t.states then send_delivery_reaction t loop_open timeout else []),
)

pub data Event : Type 0 where
  prepares : Event
  marks : Bool → Event
  responds : Value → Bool → Event
  expires : ℕ → Bool → Event

module _ (parse : Text → Option ℤ) where
  or_minute : Option ℤ → ℤ
  or_minute none = pos 60000
  or_minute (some z) = z

  -- In thousandths of a second; a value that is no number stands for a minute.
  timeout_of : Fields → ℤ
  unfolding or_minute
  timeout_of info =
      or_minute (float_of parse (or_default (get info (codes "timeout_secs")) (float (pos 60000))))

  -- `_schedule_delivery_timeout`
  unfoldable pub schedule_delivery_timeout : Tracking → Bool → Tracking
  unfolding timeout_of
  schedule_delivery_timeout t loop_open =
      if not (leb_ℤ (timeout_of t.info) (pos 0)) && (t.has_loop && loop_open)
      then record t { states = sleep_over t.states }
      else t

  -- `_mark_delivery_sent`
  unfoldable pub mark_delivery_sent : Tracking → Bool → Tracking × List Reaction
  mark_delivery_sent t loop_open = if not (is_tracked t.info) then (t, []) else (
    (if request_ack t.info then schedule_delivery_timeout t loop_open else t),
    (if current_done t.states then [] else send_delivery_reaction t loop_open sent),
  )

  unfoldable pub step : Tracking → Event → Tracking × List Reaction
  step t prepares = (prepare t, [])
  step t (marks loop_open) = mark_delivery_sent t loop_open
  step t (responds packet loop_open) = on_response t packet loop_open
  step t (expires i loop_open) = expire t i loop_open

  abbrev pub run : Tracking → List Event → Tracking × List Reaction
  run t [] = (t, [])
  run t (e ∷ events) =
      let (next, reactions) = step t e in
      let (last, others) = run next events in (last, reactions ++ others)
