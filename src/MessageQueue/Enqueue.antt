-- ===== src/MessageQueue/Enqueue.antt =====
-- `enqueue` and `_requeue_message` of message_queue.py. `enqueue` with `wait` gives up the lock
-- between its attempts: what the other threads do meanwhile is a function on the queue.
pub mod Bounds
pub mod Waiting
use meshtastic_matrix_relay.Prelude.{
  ℕ, ◌+◌, ◌-◌, Bool, true, false, ◌&&◌, ◌||◌, not, Option, none, some, List, [], ◌∷◌, ◌++◌, leb,
  if◌then◌else◌, length,
}
use meshtastic_matrix_relay.MessageQueue.{
  Queue, QueuedMessage, max_queue_size, queue_full_log_interval,
}
use meshtastic_matrix_relay.MessageQueue.Lifecycle.{recover, ensure_processor_started}

pub data Verdict : Type 0 where
  accepted refused must_wait : Verdict

pub record Request : Type 0 where
  pub message : QueuedMessage
  pub wait : Bool
  pub timeout : Option ℕ

-- `timeout is not None and elapsed >= timeout`
abbrev pub timed_out : Option ℕ → ℕ → Bool
timed_out none elapsed = false
timed_out (some t) elapsed = leb t elapsed

-- The warning about a full queue is logged at most once in the interval.
abbrev pub log_due : Option ℕ → ℕ → Bool
log_due none now = true
log_due (some t) now = leb queue_full_log_interval (now - t)

unfoldable pub drop_message : Queue → Queue
drop_message q = record q { dropped_messages = q.dropped_messages + 1 }

-- One round of the `while True`, at the time `now` of a call that began at `since`.
unfoldable pub attempt : Request → ℕ → ℕ → Queue → Queue × Verdict
unfolding drop_message
attempt r since now q =
    if leb max_queue_size (length q.messages)
    then (if r.wait
        then (if timed_out r.timeout (now - since) then (drop_message q, refused) else (
          record q {
            last_queue_full_log_time =
                if log_due q.last_queue_full_log_time now
                then some now
                else q.last_queue_full_log_time;
          },
          must_wait,
        ))
        else (drop_message q, refused))
    else (
      record q { messages = q.messages ++ r.message ∷ []; last_queue_full_log_time = none },
      accepted,
    )

-- The next attempt, after the sleep: the time, and what happened to the queue.
pub record Wake : Type 0 where
  pub now : ℕ
  pub meanwhile : Queue → Queue

-- The check after the sleep, and the next round.
unfoldable pub wake_up : Request → ℕ → Wake → Queue → Queue × Verdict
unfolding attempt
wake_up r since w q =
    if not (w.meanwhile q).running || (w.meanwhile q).stopping
    then (w.meanwhile q, refused)
    else attempt r since w.now (w.meanwhile q)

-- `must_wait` as the result means that the given wakes are used up.
unfoldable pub retry : Request → ℕ → List Wake → Queue × Verdict → Queue × Verdict
unfolding wake_up
retry r since [] (q, v) = (q, v)
retry r since (w ∷ ws) (q, accepted) = (q, accepted)
retry r since (w ∷ ws) (q, refused) = (q, refused)
retry r since (w ∷ ws) (q, must_wait) = retry r since ws (wake_up r since w q)

unfoldable pub enqueue_recovered : Request → ℕ → List Wake → Queue → Queue × Verdict
unfolding retry attempt
enqueue_recovered r now ws q =
    if q.stop_failed
    then (q, refused)
    else if not q.running || q.stopping
    then (q, refused)
    else retry r now ws (attempt r now now q)

unfoldable pub enqueue : Request → Option ℕ → ℕ → List Wake → Queue → Queue × Verdict
enqueue r loop now ws q = enqueue_recovered r now ws (recover (ensure_processor_started q loop)).0

-- `_requeue_message`: back to the front, unless the queue has filled up meanwhile.
unfoldable pub requeue : QueuedMessage → Queue → Queue × Bool
unfolding drop_message
requeue m q =
    if leb max_queue_size (length q.messages)
    then (drop_message q, false)
    else (record q { messages = m ∷ q.messages }, true)
