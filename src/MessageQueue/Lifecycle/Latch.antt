-- ===== src/MessageQueue/Lifecycle/Latch.antt =====
-- The lifecycle invariant of the queue and the failed-stop latch.
use meshtastic_matrix_relay.Prelude.{ℕ, ◌≡◌, ◌↔◌, true, false, ◌&&◌, ◌||◌, Option, some, arith}
use meshtastic_matrix_relay.MessageQueue.{Queue}
use meshtastic_matrix_relay.MessageQueue.Lifecycle.{
  task_active, is_some, start, StopCall, stop_begin, StopEvent, task_ended, loop_closed,
  executor_ended, wait_expired, stop_step, reset_failed_stop_state, ensure_processor_started,
}

-- The queue never runs while it is stopping.
abbrev pub Exclusive : Queue → Type 0
Exclusive q = (q.running && q.stopping) ≡ false

stop_step-Exclusive :
    (q : Queue) (c : StopCall) (e : StopEvent) → Exclusive q → Exclusive (stop_step (c, q) e).1
unfolding stop_step
stop_step-Exclusive q c task_ended h = ground arith
stop_step-Exclusive q c loop_closed h = ground arith
stop_step-Exclusive q c executor_ended h = ground arith
stop_step-Exclusive q c wait_expired h = h

-- Every section of the lifecycle keeps running and stopping apart.
pub lifecycle-Exclusive :
    (q : Queue)
    → Exclusive q
    → ((delay : ℕ) (loop : Option ℕ) (pool : ℕ) → Exclusive (start q delay loop pool).0)
      × ((c : StopCall) (q' : Queue) → stop_begin q ≡ some (c, q') → Exclusive q')
      × ((c : StopCall) (e : StopEvent) → Exclusive (stop_step (c, q) e).1)
      × Exclusive (reset_failed_stop_state q).0
      × ((loop : Option ℕ) → Exclusive (ensure_processor_started q loop))
unfolding start stop_begin stop_step reset_failed_stop_state ensure_processor_started
lifecycle-Exclusive q h = (
  λ delay loop pool. ground arith,
  λ c q' e. ground arith,
  λ c e. stop_step-Exclusive q c e h,
  ground arith,
  λ loop. ground arith,
)

-- Resources of an earlier run that are still there.
abbrev pub Busy : Queue → Type 0
Busy q = (q.running || (task_active q || is_some q.executor)) ≡ true

-- While a stop has failed and resources are left, start and reset refuse and change nothing.
latch_holds :
    (q : Queue) (delay : ℕ) (loop : Option ℕ) (pool : ℕ)
    → q.stop_failed ≡ true
    → Busy q
    → (start q delay loop pool ≡ (q, false)) × (reset_failed_stop_state q ≡ (q, false))
unfolding start reset_failed_stop_state
latch_holds q delay loop pool failed busy = ground arith

-- `start` answers true exactly if the queue runs afterwards and no stop has failed.
start-true :
    (q : Queue) (delay : ℕ) (loop : Option ℕ) (pool : ℕ)
    → ((start q delay loop pool).1 ≡ true)
      ↔ ((start q delay loop pool).0.running ≡ true)
        × ((start q delay loop pool).0.stop_failed ≡ false)
unfolding start
start-true q delay loop pool = ((λ h. ground arith), (λ h. ground arith))
