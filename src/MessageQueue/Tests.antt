-- ===== src/MessageQueue/Tests.antt =====
-- Runs of the message queue, and the theorems at concrete states.
use meshtastic_matrix_relay.Prelude.{
  ℕ, ◌≤◌, ◌≡◌, ◌≢◌, refl, inl, true, false, Option, none, some, List, [], ◌∷◌, ◌++◌, arith, length,
}
use meshtastic_matrix_relay.Text.{codes}
use meshtastic_matrix_relay.MessageQueue.{Queue, QueuedMessage, init, sent}
use meshtastic_matrix_relay.MessageQueue.Lifecycle.{
  start, StopCall, stop_begin, task_ended, loop_closed, executor_ended, wait_expired, stop_step,
  stop_steps, reset_failed_stop_state, ensure_processor_started, recover,
}
use meshtastic_matrix_relay.MessageQueue.Lifecycle.Latch.{Exclusive, lifecycle-Exclusive}
use meshtastic_matrix_relay.MessageQueue.Lifecycle.Shutdown.{
  IsStopped, stop_finishes, late_expiry_wedges,
}
use meshtastic_matrix_relay.MessageQueue.Enqueue.{
  Request, Wake, must_wait, enqueue, enqueue_recovered, retry,
}
use meshtastic_matrix_relay.MessageQueue.Enqueue.Waiting.{enqueue_answers}
use meshtastic_matrix_relay.MessageQueue.Report.{drain_round}
use meshtastic_matrix_relay.MessageQueue.Processor.{
  Env, Radio, loaded, lost, recorded, returned, wake, send_ends,
}
use meshtastic_matrix_relay.MessageQueue.Processor.Pacing.{IsPaced, is_sending}
use meshtastic_matrix_relay.MessageQueue.System.Pacing.{run-IsPaced}
use meshtastic_matrix_relay.MessageQueue.Processor.Settling.{messages_of}
use meshtastic_matrix_relay.MessageQueue.System.{
  System, Action, posts, wakes, sends_end, starts, stops, stop_goes_on, act, run, idle,
}
use meshtastic_matrix_relay.MessageQueue.System.Order.{pending, fifo}
use meshtastic_matrix_relay.MessageQueue.System.Limits.{Undisturbed, queue_bounded, drain_complete}

abbrev message : ℕ → QueuedMessage
message n = record {
  timestamp = 0;
  call = n;
  description = codes "text";
  mapping_info = none;
  delivery_event = none;
  min_delay = none;
}

abbrev at_once : ℕ → Request
at_once n = record { message = message n; wait = false; timeout = none }

abbrev patient : Request
patient = record { message = message 9; wait = true; timeout = some 100 }

abbrev ready : Radio
ready = loaded false false (some none)

abbrev tick : ℕ → Env
tick now = record { now = now; first = ready; last = ready }

-- Two messages; the first is sent, and the second waits for the rate limit and is sent.
abbrev script : List Action
script =
    starts 2500 (some 1) 7
    ∷ posts (at_once 1) none 10
    ∷ posts (at_once 2) none 11
    ∷ wakes (tick 20)
    ∷ sends_end 30 (returned true)
    ∷ wakes (tick 40)
    ∷ wakes (tick 2530)
    ∷ sends_end 2540 (returned true)
    ∷ []

script_settles :
    (run idle script).2
    ≡ record { message = message 1; outcome = recorded sent }
      ∷ record { message = message 2; outcome = recorded sent }
      ∷ []
unfolding run start enqueue enqueue_recovered recover ensure_processor_started retry wake send_ends
script_settles = refl

fifo_example : let (s, taken, settled) = run idle script in messages_of settled ++ pending s ≡ taken
fifo_example = fifo script

queue_bounded_example : length (run idle script).0.queue.messages ≤ 500
queue_bounded_example = queue_bounded script

script_drained : drain_round none 3000 (run idle script).0.queue ≡ some true
unfolding run start enqueue enqueue_recovered recover ensure_processor_started retry wake send_ends
    drain_round
script_drained = refl

script-Undisturbed : Undisturbed script
script-Undisturbed = (refl, (refl, (refl, (refl, (refl, (refl, (refl, (refl, tt))))))))

drain_complete_example : pending (run idle script).0 ≡ []
drain_complete_example = drain_complete script none 3000 script-Undisturbed script_drained

-- The loop of the coroutine is closed while the executor sends: the message in hand is lost, and
-- the coroutine of the next start takes the other.
abbrev closed_call : StopCall
closed_call = record {
  task = some 1;
  executor = some 7;
  task_complete = false;
  executor_complete = true;
}

abbrev closed_script : List Action
closed_script =
    starts 2500 (some 1) 7
    ∷ posts (at_once 1) none 10
    ∷ posts (at_once 2) none 11
    ∷ wakes (tick 20)
    ∷ stops
    ∷ stop_goes_on closed_call loop_closed
    ∷ starts 2500 (some 2) 8
    ∷ sends_end 30 (returned true)
    ∷ wakes (tick 40)
    ∷ sends_end 50 (returned true)
    ∷ []

closed_script_settles :
    (run idle closed_script).2
    ≡ record { message = message 1; outcome = lost }
      ∷ record { message = message 2; outcome = recorded sent }
      ∷ []
unfolding run start enqueue enqueue_recovered recover ensure_processor_started retry wake send_ends
    stop_step stop_begin
closed_script_settles = refl

-- After the first send the second message sleeps until its time has come.
abbrev first_actions : List Action
first_actions =
    posts (at_once 1) none 10
    ∷ posts (at_once 2) none 11
    ∷ wakes (tick 20)
    ∷ sends_end 30 (returned true)
    ∷ wakes (tick 40)
    ∷ []

abbrev sleeping : System
sleeping = (run (act idle (starts 2500 (some 1) 7)).0 first_actions).0

sleeping_clock : sleeping.queue.last_send_mono ≤ 2530
unfolding run start enqueue enqueue_recovered recover ensure_processor_started retry wake send_ends
sleeping_clock = omega arith

sleeping_waits : is_sending sleeping.processor.phase ≡ false
unfolding run start enqueue enqueue_recovered recover ensure_processor_started retry wake send_ends
sleeping_waits = refl

sleeping_sends : is_sending (act sleeping (wakes (tick 2530))).0.processor.phase ≡ true
unfolding run start enqueue enqueue_recovered recover ensure_processor_started retry wake send_ends
sleeping_sends = refl

run-IsPaced_example :
    let p = (act sleeping (wakes (tick 2530))).0.processor in
    IsPaced 2500 sleeping.queue (tick 2530) p.phase p.current
run-IsPaced_example =
    run-IsPaced 2500 2500 7 (some 1) first_actions (tick 2530) (omega arith)
      (tt, (tt, (tt, (tt, (tt, tt))))) sleeping_clock sleeping_waits

-- A running queue that has sent at the time 1000.
abbrev running_queue : Queue
running_queue = record init {
  messages = message 1 ∷ [];
  processor_task = some 1;
  running = true;
  executor = some 7;
  last_send_mono = 1000;
}

lifecycle-Exclusive_example : Exclusive (reset_failed_stop_state running_queue).0
lifecycle-Exclusive_example = (lifecycle-Exclusive running_queue refl).3

abbrev failed_queue : Queue
failed_queue = record running_queue { running = false; stopping = true; stop_failed = true }

abbrev stop_call : StopCall
stop_call = record {
  task = some 1;
  executor = some 7;
  task_complete = false;
  executor_complete = false;
}

abbrev stopping_queue : Queue
stopping_queue = record running_queue { running = false; stopping = true }

abbrev last_state : StopCall × Queue
last_state =
    stop_step (stop_steps (stop_call, stopping_queue) (wait_expired ∷ task_ended ∷ []))
      executor_ended

stop_finishes_example :
    IsStopped last_state.1
    × ((delay : ℕ) (loop : Option ℕ) (pool : ℕ) → (start last_state.1 delay loop pool).1 ≡ true)
unfolding stop_begin stop_step stop_steps
stop_finishes_example =
    stop_finishes running_queue stopping_queue stop_call refl (wait_expired ∷ task_ended ∷ [])
      executor_ended refl refl

abbrev wedged : Queue
wedged = (stop_step (stop_call, (start init 2500 none 8).0) wait_expired).1

late_expiry_wedges_example :
    (wedged.running ≡ true)
    × (wedged.stop_failed ≡ true)
    × ((delay' pool' : ℕ) (loop' : Option ℕ) → start wedged delay' loop' pool' ≡ (wedged, false))
    × (reset_failed_stop_state wedged ≡ (wedged, false))
    × ((c' : StopCall) (q'' : Queue) → stop_begin wedged ≡ some (c', q'') → q''.stop_failed ≡ true)
late_expiry_wedges_example = late_expiry_wedges init stop_call 2500 8 none (record {
  halted = refl;
  open_again = refl;
  recovered = refl;
  no_task = refl;
  no_executor = refl;
})

abbrev late_wake : Wake
late_wake = record { now = 105; meanwhile = λ q. q }

enqueue_answers_example : (enqueue patient none 5 (late_wake ∷ []) running_queue).1 ≢ must_wait
enqueue_answers_example =
    enqueue_answers patient none 5 100 (late_wake ∷ []) running_queue refl (inl (omega arith))
