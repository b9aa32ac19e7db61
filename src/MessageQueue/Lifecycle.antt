-- ===== src/MessageQueue/Lifecycle.antt =====
-- `start`, `stop` with the callbacks and watchdogs that it leaves behind, and
-- `ensure_processor_started` of message_queue.py. Each function is one section under the lock.
pub mod Latch
pub mod Shutdown
use meshtastic_matrix_relay.Prelude.{
  ℕ, Bool, true, false, ◌&&◌, ◌||◌, not, Option, none, some, List, [], ◌∷◌, ◌==◌, if◌then◌else◌,
}
use meshtastic_matrix_relay.MessageQueue.{Queue}

-- `task is not None and not task.done()`
abbrev pub task_active : Queue → Bool
task_active q = elim q.processor_task [ none ↦ false | some t ↦ not (q.task_done t) ]

abbrev pub is_some : Option ℕ → Bool
is_some none = false
is_some (some t) = true

-- `a is b` for two resources that may be missing; false unless both are there.
abbrev pub same : Option ℕ → Option ℕ → Bool
same (some a) (some b) = a == b
same _ _ = false

-- `_clear_failed_stop_state_if_recovered_locked`: a task that is still there is done.
unfoldable pub recover : Queue → Queue × Bool
recover q =
    if not q.stop_failed
    then (q, false)
    else if q.running || (task_active q || is_some q.executor)
    then (q, false)
    else (record q { processor_task = none; stopping = false; stop_failed = false }, true)

-- `if self._executor is None: self._executor = ThreadPoolExecutor(...)`
abbrev pub or_new : Option ℕ → ℕ → Option ℕ
or_new none e = some e
or_new (some e') e = some e'

-- `loop` is the task that `create_task` makes, if an event loop runs; otherwise the task is left.
abbrev pub or_kept : Option ℕ → Option ℕ → Option ℕ
or_kept none old = old
or_kept (some t) old = some t

unfoldable pub start_recovered : Queue → ℕ → Option ℕ → ℕ → Queue × Bool
start_recovered q delay loop pool =
    if q.stop_failed
    then (q, false)
    else if q.running
    then (q, true)
    else if q.stopping
    then (q, false)
    else (
      record q {
        message_delay = delay;
        running = true;
        stop_logged = false;
        executor = or_new q.executor pool;
        processor_task = or_kept loop q.processor_task;
      },
      true,
    )

unfoldable pub start : Queue → ℕ → Option ℕ → ℕ → Queue × Bool
unfolding start_recovered recover
start q delay loop pool = start_recovered (recover q).0 delay loop pool

-- The locals of a call of `stop`: the resources that it saw, and its two events.
pub record StopCall : Type 0 where
  pub task : Option ℕ
  pub executor : Option ℕ
  pub task_complete : Bool
  pub executor_complete : Bool

-- The first section of `stop`; `none` if the queue does not run.
unfoldable pub stop_begin : Queue → Option (StopCall × Queue)
stop_begin q =
    if not q.running
    then none
    else some (
      record {
        task = q.processor_task;
        executor = q.executor;
        task_complete = not (is_some q.processor_task);
        executor_complete = not (is_some q.executor);
      },
      record q { running = false; stopping = true },
    )

-- `_mark_stop_failed`
unfoldable pub mark_stop_failed : Queue → Queue
mark_stop_failed q = record q { stop_failed = true }

release_task : StopCall → Queue → Queue
release_task c q =
    if same c.task q.processor_task
    then record q { processor_task = none; in_flight = false; has_current = false }
    else q

release_executor : StopCall → Queue → Queue
release_executor c q = if same c.executor q.executor then record q { executor = none } else q

finish_failed : Queue × Bool → Queue
finish_failed (q, true) = record q { stop_logged = true }
finish_failed (q, false) = q

finish_stop : Queue → Queue
unfolding finish_failed recover
finish_stop q =
    if q.stop_failed
    then finish_failed (recover q)
    else record q { stopping = false; stop_logged = true }

-- `_finalize_stop_state`
unfoldable pub finalize_stop : StopCall → Queue → Queue
unfolding release_task release_executor finish_stop
finalize_stop c q =
    if c.task_complete && c.executor_complete
    then finish_stop (release_executor c (release_task c q))
    else q

-- What the threads and callbacks of a stop do later: the task has ended (its done-callback runs, or
-- `run_until_complete` has run it to its end), the loop of the task is closed, so that the task
-- never goes on (found by `is_closed`, or by the RuntimeError of a call on the loop), the executor
-- has shut down, or the wait for one of them has run out. A loop that `run_until_complete` cannot
-- run, as another one runs in the thread, is taken for closed: nothing runs it again.
pub data StopEvent : Type 0 where
  task_ended loop_closed executor_ended wait_expired : StopEvent

-- The task that has ended is done from then on; one whose loop is closed never is.
end_task : Option ℕ → (ℕ → Bool) → ℕ → Bool
end_task none done t = done t
end_task (some e) done t = t == e || done t

unfoldable pub stop_step : StopCall × Queue → StopEvent → StopCall × Queue
unfolding finalize_stop mark_stop_failed end_task
stop_step (c, q) task_ended =
    let c' = record c { task_complete = true } in
    (c', finalize_stop c' (record q { task_done = end_task c.task q.task_done }))
stop_step (c, q) loop_closed =
    let c' = record c { task_complete = true } in (c', finalize_stop c' q)
stop_step (c, q) executor_ended =
    let c' = record c { executor_complete = true } in (c', finalize_stop c' q)
stop_step (c, q) wait_expired = (c, mark_stop_failed q)

unfoldable pub stop_steps : StopCall × Queue → List StopEvent → StopCall × Queue
stop_steps cq [] = cq
stop_steps cq (e ∷ es) = stop_steps (stop_step cq e) es

-- `reset_failed_stop_state`
unfoldable pub reset_failed_stop_state : Queue → Queue × Bool
unfolding recover
reset_failed_stop_state q =
    if q.stopping then (q, false) else if not q.stop_failed then (q, true) else recover q

-- `ensure_processor_started`: a task that is done is forgotten.
drop_done : Queue → Queue
drop_done q = if task_active q then q else record q { processor_task = none }

unfoldable pub ensure_processor_started : Queue → Option ℕ → Queue
unfolding drop_done
ensure_processor_started q loop =
    if q.running && (not q.stop_failed && not (task_active q))
    then record (drop_done q) { processor_task = or_kept loop none }
    else drop_done q
