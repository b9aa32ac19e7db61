-- ===== src/MessageQueue/System/Pacing/Keeping.antt =====
-- The sections of the queue leave the pace of its sends as it is.
use meshtastic_matrix_relay.Prelude.{ℕ, ◌≤◌, ◌≡◌, ◌∙◌, Option, [], arith}
use meshtastic_matrix_relay.MessageQueue.{Queue}
use meshtastic_matrix_relay.MessageQueue.Lifecycle.{
  recover, StopCall, StopEvent, task_ended, loop_closed, executor_ended, wait_expired, start,
  stop_begin, stop_step, reset_failed_stop_state, ensure_processor_started,
}
use meshtastic_matrix_relay.MessageQueue.Enqueue.{Request, wake_up, enqueue, enqueue_recovered}
use meshtastic_matrix_relay.MessageQueue.Enqueue.Bounds.{found}
use meshtastic_matrix_relay.MessageQueue.System.{stopped}

-- A section that touches neither the last send nor, but for a start, the delay.
abbrev pub Keeps : ℕ → Queue → Queue → Type 0
Keeps floor q q' =
    (q'.last_send_mono ≡ q.last_send_mono) × (floor ≤ q.message_delay → floor ≤ q'.message_delay)

found-Keeps : (floor : ℕ) (loop : Option ℕ) (q : Queue) → Keeps floor q (found loop q)
unfolding recover ensure_processor_started
found-Keeps floor loop q = ground arith

recovered-Keeps :
    (floor : ℕ) (r : Request) (now : ℕ) (q : Queue) → Keeps floor q (enqueue_recovered r now [] q).0
unfolding enqueue_recovered
recovered-Keeps floor r now q = ground arith

pub enqueue-Keeps :
    (floor : ℕ) (r : Request) (loop : Option ℕ) (now : ℕ) (q : Queue)
    → Keeps floor q (enqueue r loop now [] q).0
unfolding enqueue
enqueue-Keeps floor r loop now q =
    let (e, h) = found-Keeps floor loop q in
    let (e', h') = recovered-Keeps floor r now (found loop q) in (e' ∙ e, λ le. h' (h le))

pub wake_up-Keeps :
    (floor : ℕ) (r : Request) (since now : ℕ) (q : Queue)
    → Keeps floor q (wake_up r since (record { now = now; meanwhile = λ q'. q' }) q).0
unfolding wake_up
wake_up-Keeps floor r since now q = ground arith

pub start-Keeps :
    (floor : ℕ) (q : Queue) (delay : ℕ) (loop : Option ℕ) (pool : ℕ)
    → floor ≤ delay
    → Keeps floor q (start q delay loop pool).0
unfolding start
start-Keeps floor q delay loop pool le = ground arith

pub stop-Keeps : (floor : ℕ) (q : Queue) → Keeps floor q (stopped q (stop_begin q))
unfolding stop_begin
stop-Keeps floor q = ground arith

pub reset-Keeps : (floor : ℕ) (q : Queue) → Keeps floor q (reset_failed_stop_state q).0
unfolding reset_failed_stop_state
reset-Keeps floor q = ground arith

pub ensure-Keeps :
    (floor : ℕ) (q : Queue) (loop : Option ℕ) → Keeps floor q (ensure_processor_started q loop)
unfolding ensure_processor_started
ensure-Keeps floor q loop = ground arith

pub stop_step-Keeps :
    (floor : ℕ) (c : StopCall) (q : Queue) (e : StopEvent) → Keeps floor q (stop_step (c, q) e).1
unfolding stop_step
stop_step-Keeps floor c q task_ended = ground arith
stop_step-Keeps floor c q loop_closed = ground arith
stop_step-Keeps floor c q executor_ended = ground arith
stop_step-Keeps floor c q wait_expired = ground arith
