-- ===== src/MessageQueue/System/Pacing.antt =====
-- The spacing of sends in every interleaving.
pub mod Keeping
use meshtastic_matrix_relay.MessageQueue.System.Pacing.Keeping.{
  Keeps, enqueue-Keeps, wake_up-Keeps, start-Keeps, stop-Keeps, reset-Keeps, ensure-Keeps,
  stop_step-Keeps,
}
use meshtastic_matrix_relay.Prelude.{
  ℕ, ◌≤◌, ◌≡◌, sym, subst, Bool, true, false, not, ◌&&◌, Option, none, some, List, [], ◌∷◌, arith,
  if_rule,
}
use meshtastic_matrix_relay.MessageQueue.{Queue, QueuedMessage}
use meshtastic_matrix_relay.MessageQueue.Lifecycle.{
  recover, task_active, same, StopCall, StopEvent, task_ended, loop_closed, executor_ended,
  wait_expired, start, stop_begin, stop_step, reset_failed_stop_state, ensure_processor_started,
}
use meshtastic_matrix_relay.MessageQueue.Enqueue.{
  Request, Wake, wake_up, enqueue, enqueue_recovered,
}
use meshtastic_matrix_relay.MessageQueue.Enqueue.Bounds.{found}
use meshtastic_matrix_relay.MessageQueue.Processor.{
  Phase, top, rate_wait, sending, mapping, halted, Processor, fresh, Env, wake, send_ends,
  mapping_ends, cancel,
}
use meshtastic_matrix_relay.MessageQueue.Processor.Returning.{is_halted}
use meshtastic_matrix_relay.MessageQueue.Processor.Pacing.{
  WaitsEnough, IsPaced, Steady, is_sending, wake-Steady, wake-Paced,
}
use meshtastic_matrix_relay.MessageQueue.Processor.Pacing.Steadiness.{
  send_ends-Steady, mapping_ends-Steady, cancel-Steady,
}
use meshtastic_matrix_relay.MessageQueue.System.{
  System, Result, Action, posts, posts_again, wakes, sends_end, maps_end, cancels, starts, stops,
  resets, stop_goes_on, ensures, act, run, respawn, idle, stopped, untouched, closed, goes_on_with,
}

-- A start asks for at least the delay `floor`.
abbrev pub AsksAtLeast : ℕ → Action → Type 0
AsksAtLeast floor (starts delay loop pool) = floor ≤ delay
AsksAtLeast floor _ = Unit

abbrev pub AllAskAtLeast : ℕ → List Action → Type 0
AllAskAtLeast floor [] = Unit
AllAskAtLeast floor (a ∷ as') = AsksAtLeast floor a × AllAskAtLeast floor as'

abbrev SystemIsSteady : ℕ → System → Type 0
SystemIsSteady floor s = Steady floor s.queue s.processor

keeps-WaitsEnough :
    (floor : ℕ) (q q' : Queue) (phase : Phase) (current : Option QueuedMessage)
    → q'.last_send_mono ≡ q.last_send_mono
    → WaitsEnough floor q phase current
    → WaitsEnough floor q' phase current
keeps-WaitsEnough floor q q' (rate_wait until) none e h = absurd h
keeps-WaitsEnough floor q q' (rate_wait until) (some m) e h = omega (arith, e, h)
keeps-WaitsEnough floor q q' _ current e h = tt

respawn-Steady :
    (floor : ℕ) (q q' : Queue) (p : Processor) (owner : Option ℕ)
    → Keeps floor q q'
    → Steady floor q p
    → SystemIsSteady floor (respawn q' p owner)
respawn-Steady floor q q' p owner (e, keeps) h =
    if_rule (SystemIsSteady floor)
      (is_halted p.phase && (task_active q' && not (same q'.processor_task owner)))
      (λ _. (keeps h.0, tt))
      (λ _. (keeps h.0, keeps-WaitsEnough floor q q' p.phase p.current e h.1))

untouched-Steady :
    (floor : ℕ) (s : System) (q' : Queue)
    → Keeps floor s.queue q'
    → SystemIsSteady floor s
    → SystemIsSteady floor (untouched q' s).0
untouched-Steady floor s q' = respawn-Steady floor s.queue q' s.processor s.owner

closed-Steady :
    (floor : ℕ) (s : System) (q' : Queue) (owned : Bool)
    → Keeps floor s.queue q'
    → SystemIsSteady floor s
    → SystemIsSteady floor (closed q' owned s).0
closed-Steady floor s q' true k h =
    respawn-Steady floor s.queue q' (record { phase = halted; current = none }) s.owner k (h.0, tt)
closed-Steady floor s q' false k h = untouched-Steady floor s q' k h

goes_on_with-Steady :
    (floor : ℕ) (c : StopCall) (e : StopEvent) (s : System)
    → SystemIsSteady floor s
    → SystemIsSteady floor (goes_on_with c e s).0
goes_on_with-Steady floor c task_ended s h =
    if_rule (λ (r : Result). SystemIsSteady floor r.0)
      (same c.task s.owner && not (is_halted s.processor.phase)) (λ _. h)
      (λ _.
        untouched-Steady floor s (stop_step (c, s.queue) task_ended).1
          (stop_step-Keeps floor c s.queue task_ended) h)
goes_on_with-Steady floor c loop_closed s h =
    closed-Steady floor s (stop_step (c, s.queue) loop_closed).1 (same c.task s.owner)
      (stop_step-Keeps floor c s.queue loop_closed) h
goes_on_with-Steady floor c executor_ended s h =
    untouched-Steady floor s (stop_step (c, s.queue) executor_ended).1
      (stop_step-Keeps floor c s.queue executor_ended) h
goes_on_with-Steady floor c wait_expired s h =
    untouched-Steady floor s (stop_step (c, s.queue) wait_expired).1
      (stop_step-Keeps floor c s.queue wait_expired) h

act-Steady :
    (floor : ℕ) (s : System) (a : Action)
    → AsksAtLeast floor a
    → SystemIsSteady floor s
    → SystemIsSteady floor (act s a).0
unfolding act
act-Steady floor s (posts r loop now) _ h =
    untouched-Steady floor s (enqueue r loop now [] s.queue).0
      (enqueue-Keeps floor r loop now s.queue) h
act-Steady floor s (posts_again r since now) _ h =
    untouched-Steady floor s (wake_up r since (record { now = now; meanwhile = λ q. q }) s.queue).0
      (wake_up-Keeps floor r since now s.queue) h
act-Steady floor s (wakes env) _ h = wake-Steady floor env s.queue s.processor h
act-Steady floor s (sends_end now result) _ h =
    send_ends-Steady floor now result s.queue s.processor h
act-Steady floor s maps_end _ h = mapping_ends-Steady floor s.queue s.processor h
act-Steady floor s cancels _ h = cancel-Steady floor s.queue s.processor h
act-Steady floor s (starts delay loop pool) le h =
    untouched-Steady floor s (start s.queue delay loop pool).0
      (start-Keeps floor s.queue delay loop pool le) h
act-Steady floor s stops _ h =
    untouched-Steady floor s (stopped s.queue (stop_begin s.queue)) (stop-Keeps floor s.queue) h
act-Steady floor s resets _ h =
    untouched-Steady floor s (reset_failed_stop_state s.queue).0 (reset-Keeps floor s.queue) h
act-Steady floor s (stop_goes_on c e) _ h = goes_on_with-Steady floor c e s h
act-Steady floor s (ensures loop) _ h =
    untouched-Steady floor s (ensure_processor_started s.queue loop)
      (ensure-Keeps floor s.queue loop) h

run-Steady :
    (floor : ℕ) (s : System) (as' : List Action)
    → AllAskAtLeast floor as'
    → SystemIsSteady floor s
    → SystemIsSteady floor (run s as').0
unfolding run
run-Steady floor s [] _ h = h
run-Steady floor s (a ∷ as') (le, les) h =
    run-Steady floor (act s a).0 as' les (act-Steady floor s a le h)

first_start-Steady :
    (floor delay pool : ℕ) (loop : Option ℕ)
    → floor ≤ delay
    → SystemIsSteady floor (act idle (starts delay loop pool)).0
unfolding act start
first_start-Steady floor delay pool loop le = ground arith

-- A queue is started with at least the delay `floor`, and goes through any interleaving of calls,
-- processor steps, results, shutdowns and restarts in which every later start asks for at least
-- `floor` too. If then the clock stands at or after the last successful send, a timer of a
-- processor that is not sending begins a send only if no send has succeeded before, or both `floor`
-- and the message's own delay have passed since the last one that did; and only if the radio
-- was ready at the last check.
pub run-IsPaced :
    (floor delay pool : ℕ) (loop : Option ℕ) (as' : List Action) (env : Env)
    → floor ≤ delay
    → AllAskAtLeast floor as'
    → let s = (run (act idle (starts delay loop pool)).0 as').0 in
      s.queue.last_send_mono ≤ env.now
      → is_sending s.processor.phase ≡ false
      → let p = (act s (wakes env)).0.processor in IsPaced floor s.queue env p.phase p.current
unfolding act
run-IsPaced floor delay pool loop as' env le les clock e =
    let s = (run (act idle (starts delay loop pool)).0 as').0 in
    (wake-Paced floor env s.queue s.processor
        (run-Steady floor (act idle (starts delay loop pool)).0 as' les
          (first_start-Steady floor delay pool loop le))
        e).1
      clock
