-- ===== src/MessageQueue/Lifecycle/Shutdown.antt =====
-- A stop comes to its end: once task and executor are gone, the queue can be started again.
use meshtastic_matrix_relay.Prelude.{
  ℕ, ◌≡◌, Bool, true, false, ◌&&◌, Option, none, some, List, [], ◌∷◌, arith,
}
use meshtastic_matrix_relay.MessageQueue.{Queue}
use meshtastic_matrix_relay.MessageQueue.Lifecycle.{
  start, StopCall, stop_begin, finalize_stop, StopEvent, task_ended, loop_closed, executor_ended,
  wait_expired, stop_step, stop_steps, reset_failed_stop_state,
}

abbrev pub complete : StopCall → Bool
complete c = c.task_complete && c.executor_complete

-- A stop on its way: nothing is released yet.
record IsPending (c : StopCall) (q : Queue) : Type 0 where
  halted : q.running ≡ false
  still : q.stopping ≡ true
  task : q.processor_task ≡ c.task
  executor : q.executor ≡ c.executor

-- The state in which `start` succeeds.
pub record IsStopped (q : Queue) : Type 0 where
  pub halted : q.running ≡ false
  pub open_again : q.stopping ≡ false
  pub recovered : q.stop_failed ≡ false
  pub no_task : q.processor_task ≡ none
  pub no_executor : q.executor ≡ none

begin-IsPending :
    (q : Queue) (c : StopCall) (q' : Queue) → stop_begin q ≡ some (c, q') → IsPending c q'
unfolding stop_begin
begin-IsPending q c q' h = ground arith

finalize-IsPending :
    (c : StopCall) (q : Queue)
    → complete c ≡ false
    → IsPending c q
    → IsPending c (finalize_stop c q)
unfolding finalize_stop
finalize-IsPending c q h p = ground arith

finalize-IsStopped :
    (c : StopCall) (q : Queue) → complete c ≡ true → IsPending c q → IsStopped (finalize_stop c q)
unfolding finalize_stop
finalize-IsStopped c q h p = ground arith

step-IsPending :
    (c : StopCall) (q : Queue) (e : StopEvent)
    → complete (stop_step (c, q) e).0 ≡ false
    → IsPending c q
    → IsPending (stop_step (c, q) e).0 (stop_step (c, q) e).1
unfolding stop_step
step-IsPending c q task_ended h p = ground arith
step-IsPending c q loop_closed h p = ground arith
step-IsPending c q executor_ended h p = ground arith
step-IsPending c q wait_expired h p = ground arith

step-IsStopped :
    (c : StopCall) (q : Queue) (e : StopEvent)
    → complete c ≡ false
    → complete (stop_step (c, q) e).0 ≡ true
    → IsPending c q
    → IsStopped (stop_step (c, q) e).1
unfolding stop_step
step-IsStopped c q task_ended before after p = ground arith
step-IsStopped c q loop_closed before after p = ground arith
step-IsStopped c q executor_ended before after p = ground arith
step-IsStopped c q wait_expired before after p = cc

step-Complete :
    (c : StopCall) (q : Queue) (e : StopEvent)
    → complete (stop_step (c, q) e).0 ≡ false
    → complete c ≡ false
unfolding stop_step
step-Complete c q task_ended h = ground arith
step-Complete c q loop_closed h = ground arith
step-Complete c q executor_ended h = ground arith
step-Complete c q wait_expired h = h

steps-Complete :
    (es : List StopEvent) (c : StopCall) (q : Queue)
    → complete (stop_steps (c, q) es).0 ≡ false
    → complete c ≡ false
unfolding stop_steps
steps-Complete [] c q h = h
steps-Complete (e ∷ es) c q h =
    step-Complete c q e (steps-Complete es (stop_step (c, q) e).0 (stop_step (c, q) e).1 h)

steps-IsPending :
    (es : List StopEvent) (c : StopCall) (q : Queue)
    → complete (stop_steps (c, q) es).0 ≡ false
    → IsPending c q
    → IsPending (stop_steps (c, q) es).0 (stop_steps (c, q) es).1
unfolding stop_steps
steps-IsPending [] c q h p = p
steps-IsPending (e ∷ es) c q h p =
    let (c', q') = stop_step (c, q) e in
    steps-IsPending es c' q' h (step-IsPending c q e (steps-Complete es c' q' h) p)

start-IsStopped :
    (q : Queue) (delay : ℕ) (loop : Option ℕ) (pool : ℕ)
    → IsStopped q
    → (start q delay loop pool).1 ≡ true
unfolding start
start-IsStopped q delay loop pool h = ground arith

-- However the end of the task or of its loop, the end of the executor and the expired waits of a
-- stop are ordered,
-- the event with which both are gone leaves the queue stopped, with no failure and
-- no resource, and `start` succeeds on it.
pub stop_finishes :
    (q q' : Queue) (c : StopCall)
    → stop_begin q ≡ some (c, q')
    → (es : List StopEvent) (e : StopEvent) → complete (stop_steps (c, q') es).0 ≡ false
    → complete (stop_step (stop_steps (c, q') es) e).0 ≡ true
    → let q'' = (stop_step (stop_steps (c, q') es) e).1 in
      IsStopped q''
      × ((delay : ℕ) (loop : Option ℕ) (pool : ℕ) → (start q'' delay loop pool).1 ≡ true)
stop_finishes q q' c begun es e before after =
    let stopped =
      step-IsStopped (stop_steps (c, q') es).0 (stop_steps (c, q') es).1 e before after
        (steps-IsPending es c q' before (begin-IsPending q c q' begun)) in
    (stopped, λ delay loop pool. start-IsStopped _ delay loop pool stopped)

-- A wait that expires in the moment in which the last resource goes, and whose failure is marked
-- only after the queue was started again, leaves a queue that runs with a failed stop, on which
-- `start` and `reset_failed_stop_state` refuse, and which a further stop starts out as failed.
pub late_expiry_wedges :
    (q : Queue) (c : StopCall) (delay pool : ℕ) (loop : Option ℕ)
    → IsStopped q
    → let q' = (stop_step (c, (start q delay loop pool).0) wait_expired).1 in
      (q'.running ≡ true)
      × (q'.stop_failed ≡ true)
      × ((delay' pool' : ℕ) (loop' : Option ℕ) → start q' delay' loop' pool' ≡ (q', false))
      × (reset_failed_stop_state q' ≡ (q', false))
      × ((c' : StopCall) (q'' : Queue) → stop_begin q' ≡ some (c', q'') → q''.stop_failed ≡ true)
unfolding start stop_step stop_begin reset_failed_stop_state
late_expiry_wedges q c delay pool loop h = (
  ground arith,
  ground arith,
  λ delay' pool' loop'. ground arith,
  ground arith,
  λ c' q'' e. ground arith,
)
