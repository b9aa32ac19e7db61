-- ===== src/MessageQueue/System/Messages.antt =====
-- What each method does to the messages of the queue.
use meshtastic_matrix_relay.Prelude.{ℕ, ◌≡◌, refl, ap, ◌∙◌, Option, [], ◌++◌, arith}
use mathlib.Core.List.{append-nil}
use meshtastic_matrix_relay.MessageQueue.{Queue}
use meshtastic_matrix_relay.MessageQueue.Lifecycle.{
  start, StopCall, stop_begin, StopEvent, task_ended, loop_closed, executor_ended, wait_expired,
  stop_step, reset_failed_stop_state, ensure_processor_started,
}
use meshtastic_matrix_relay.MessageQueue.Enqueue.{
  Request, Wake, attempt, wake_up, retry, enqueue, enqueue_recovered,
}
use meshtastic_matrix_relay.MessageQueue.Enqueue.Bounds.{found, messages-found}
use meshtastic_matrix_relay.MessageQueue.System.{taken, stopped}

pub messages-start :
    (q : Queue) (delay : ℕ) (loop : Option ℕ) (pool : ℕ)
    → (start q delay loop pool).0.messages ≡ q.messages
unfolding start
messages-start q delay loop pool = ground arith

pub messages-stop : (q : Queue) → (stopped q (stop_begin q)).messages ≡ q.messages
unfolding stop_begin
messages-stop q = ground arith

pub messages-reset : (q : Queue) → (reset_failed_stop_state q).0.messages ≡ q.messages
unfolding reset_failed_stop_state
messages-reset q = ground arith

pub messages-ensure :
    (q : Queue) (loop : Option ℕ) → (ensure_processor_started q loop).messages ≡ q.messages
unfolding ensure_processor_started
messages-ensure q loop = ground arith

pub messages-stop_step :
    (c : StopCall) (q : Queue) (e : StopEvent) → (stop_step (c, q) e).1.messages ≡ q.messages
unfolding stop_step
messages-stop_step c q task_ended = ground arith
messages-stop_step c q loop_closed = ground arith
messages-stop_step c q executor_ended = ground arith
messages-stop_step c q wait_expired = refl

pub messages-attempt :
    (r : Request) (since now : ℕ) (q : Queue)
    → (attempt r since now q).0.messages ≡ q.messages ++ taken r (attempt r since now q).1
unfolding attempt
messages-attempt r since now q = ground (arith, append-nil q.messages)

pub messages-recovered :
    (r : Request) (now : ℕ) (q : Queue)
    → (enqueue_recovered r now [] q).0.messages
      ≡ q.messages ++ taken r (enqueue_recovered r now [] q).1
unfolding enqueue_recovered retry
messages-recovered r now q = ground (arith, append-nil q.messages, messages-attempt r now now q)

pub messages-wake_up :
    (r : Request) (since now : ℕ) (q : Queue)
    → let w : Wake = record { now = now; meanwhile = λ q'. q' } in
      (wake_up r since w q).0.messages ≡ q.messages ++ taken r (wake_up r since w q).1
unfolding wake_up
messages-wake_up r since now q =
    ground (arith, append-nil q.messages, messages-attempt r since now q)

pub messages-enqueue :
    (r : Request) (loop : Option ℕ) (now : ℕ) (q : Queue)
    → (enqueue r loop now [] q).0.messages ≡ q.messages ++ taken r (enqueue r loop now [] q).1
unfolding enqueue
messages-enqueue r loop now q =
    messages-recovered r now (found loop q)
    ∙ ap (λ ms. ms ++ taken r (enqueue_recovered r now [] (found loop q)).1) (messages-found loop q)
