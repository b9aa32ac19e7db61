-- ===== src/MessageQueue/System/Limits.antt =====
-- The bound on the queue, and the meaning of `drain`, in every interleaving.
pub mod Flags
use meshtastic_matrix_relay.MessageQueue.System.Limits.Flags.{
  flag-enqueue, flag-wake_up, flag-lifecycle,
}
use meshtastic_matrix_relay.Prelude.{
  ℕ, ◌≤◌, ◌≡◌, ap, ◌∙◌, Bool, true, false, Option, none, some, List, [], ◌∷◌, arith, length,
  if_rule, ◌&&◌, not,
}
use meshtastic_matrix_relay.MessageQueue.{Queue, QueuedMessage}
use meshtastic_matrix_relay.MessageQueue.Lifecycle.{
  same, task_active, StopCall, StopEvent, task_ended, loop_closed, executor_ended, wait_expired,
  recover, start, stop_begin, stop_step, reset_failed_stop_state, ensure_processor_started,
}
use meshtastic_matrix_relay.MessageQueue.Enqueue.{
  Request, Wake, wake_up, enqueue, enqueue_recovered,
}
use meshtastic_matrix_relay.MessageQueue.Enqueue.Bounds.{
  IsBounded, enqueue-IsBounded, wake_up-IsBounded, found,
}
use meshtastic_matrix_relay.MessageQueue.Report.{drain_round}
use meshtastic_matrix_relay.MessageQueue.Processor.{Phase, halted, Processor}
use meshtastic_matrix_relay.MessageQueue.Processor.Settling.{waiting}
use meshtastic_matrix_relay.MessageQueue.Processor.Returning.{is_halted}
use meshtastic_matrix_relay.MessageQueue.Processor.Bounds.{
  wake-IsBounded, send_ends-IsBounded, mapping_ends-IsBounded, cancel-IsBounded,
}
use meshtastic_matrix_relay.MessageQueue.Processor.Flags.{
  IsFlagged, wake-IsFlagged, send_ends-IsFlagged, mapping_ends-IsFlagged, cancel-IsFlagged,
}
use meshtastic_matrix_relay.MessageQueue.System.{
  System, Result, Action, posts, posts_again, wakes, sends_end, maps_end, cancels, starts, stops,
  resets, stop_goes_on, ensures, act, run, respawn, idle, stopped, closed, goes_on_with,
}
use meshtastic_matrix_relay.MessageQueue.System.Messages.{
  messages-start, messages-stop, messages-reset, messages-ensure, messages-stop_step,
}
use meshtastic_matrix_relay.MessageQueue.System.Order.{pending}

respawn-IsBounded :
    (q : Queue) (p : Processor) (owner : Option ℕ)
    → IsBounded q
    → IsBounded (respawn q p owner).queue
respawn-IsBounded q p owner h =
    if_rule (λ (s : System). IsBounded s.queue)
      (is_halted p.phase && (task_active q && not (same q.processor_task owner))) (λ _. h) (λ _. h)

keeps-IsBounded :
    (q q' : Queue) (p : Processor) (owner : Option ℕ)
    → q'.messages ≡ q.messages
    → IsBounded q
    → IsBounded (respawn q' p owner).queue
keeps-IsBounded q q' p owner e h = respawn-IsBounded q' p owner (omega (arith, ap length e))

closed-IsBounded :
    (s : System) (q' : Queue) (owned : Bool)
    → q'.messages ≡ s.queue.messages
    → IsBounded s.queue
    → IsBounded (closed q' owned s).0.queue
closed-IsBounded s q' true e h =
    keeps-IsBounded s.queue q' (record { phase = halted; current = none }) s.owner e h
closed-IsBounded s q' false e h = keeps-IsBounded s.queue q' s.processor s.owner e h

goes_on_with-IsBounded :
    (c : StopCall) (e : StopEvent) (s : System)
    → IsBounded s.queue
    → IsBounded (goes_on_with c e s).0.queue
goes_on_with-IsBounded c task_ended s h =
    if_rule (λ (r : Result). IsBounded r.0.queue)
      (same c.task s.owner && not (is_halted s.processor.phase)) (λ _. h)
      (λ _.
        keeps-IsBounded s.queue (stop_step (c, s.queue) task_ended).1 s.processor s.owner
          (messages-stop_step c s.queue task_ended) h)
goes_on_with-IsBounded c loop_closed s h =
    closed-IsBounded s (stop_step (c, s.queue) loop_closed).1 (same c.task s.owner)
      (messages-stop_step c s.queue loop_closed) h
goes_on_with-IsBounded c executor_ended s h =
    keeps-IsBounded s.queue (stop_step (c, s.queue) executor_ended).1 s.processor s.owner
      (messages-stop_step c s.queue executor_ended) h
goes_on_with-IsBounded c wait_expired s h =
    keeps-IsBounded s.queue (stop_step (c, s.queue) wait_expired).1 s.processor s.owner
      (messages-stop_step c s.queue wait_expired) h

act-IsBounded : (s : System) (a : Action) → IsBounded s.queue → IsBounded (act s a).0.queue
unfolding act
act-IsBounded s (posts r loop now) h =
    respawn-IsBounded (enqueue r loop now [] s.queue).0 s.processor s.owner
      (enqueue-IsBounded r loop now [] s.queue tt h)
act-IsBounded s (posts_again r since now) h =
    let w : Wake = record { now = now; meanwhile = λ q. q } in
    respawn-IsBounded (wake_up r since w s.queue).0 s.processor s.owner
      (wake_up-IsBounded r since w s.queue h)
act-IsBounded s (wakes env) h = wake-IsBounded env s.queue s.processor h
act-IsBounded s (sends_end now result) h = send_ends-IsBounded now result s.queue s.processor h
act-IsBounded s maps_end h = mapping_ends-IsBounded s.queue s.processor h
act-IsBounded s cancels h = cancel-IsBounded s.queue s.processor h
act-IsBounded s (starts delay loop pool) h =
    keeps-IsBounded s.queue (start s.queue delay loop pool).0 s.processor s.owner
      (messages-start s.queue delay loop pool) h
act-IsBounded s stops h =
    keeps-IsBounded s.queue (stopped s.queue (stop_begin s.queue)) s.processor s.owner
      (messages-stop s.queue) h
act-IsBounded s resets h =
    keeps-IsBounded s.queue (reset_failed_stop_state s.queue).0 s.processor s.owner
      (messages-reset s.queue) h
act-IsBounded s (stop_goes_on c e) h = goes_on_with-IsBounded c e s h
act-IsBounded s (ensures loop) h =
    keeps-IsBounded s.queue (ensure_processor_started s.queue loop) s.processor s.owner
      (messages-ensure s.queue loop) h

run-IsBounded : (s : System) (as' : List Action) → IsBounded s.queue → IsBounded (run s as').0.queue
unfolding run
run-IsBounded s [] h = h
run-IsBounded s (a ∷ as') h = run-IsBounded (act s a).0 as' (act-IsBounded s a h)

-- In every interleaving the queue holds at most `MAX_QUEUE_SIZE` messages.
pub queue_bounded : (as' : List Action) → length (run idle as').0.queue.messages ≤ 500
queue_bounded as' = run-IsBounded idle as' (omega arith)

-- No stop of the queue goes on among the actions.
abbrev pub goes_on : Action → Bool
goes_on (stop_goes_on c e) = true
goes_on _ = false

abbrev pub Undisturbed : List Action → Type 0
Undisturbed [] = Unit
Undisturbed (a ∷ as') = (goes_on a ≡ false) × Undisturbed as'

flags_at :
    (q q' : Queue) (phase : Phase) (current : Option QueuedMessage) (owner : Option ℕ)
    → q'.has_current ≡ q.has_current
    → IsFlagged q current
    → let p : Processor = record { phase = phase; current = current } in
      IsFlagged (respawn q' p owner).queue (respawn q' p owner).processor.current
flags_at q q' halted none owner e h = ground arith
flags_at q q' halted (some m) owner e h = ground arith
flags_at q q' _ none owner e h = tt
flags_at q q' _ (some m) owner e h = e ∙ h

respawn-IsFlagged :
    (s : System) (q' : Queue)
    → q'.has_current ≡ s.queue.has_current
    → IsFlagged s.queue s.processor.current
    → let s' = respawn q' s.processor s.owner in IsFlagged s'.queue s'.processor.current
respawn-IsFlagged s q' = flags_at s.queue q' s.processor.phase s.processor.current s.owner

abbrev Flagged : System → Type 0
Flagged s = IsFlagged s.queue s.processor.current

act-Flagged : (s : System) (a : Action) → goes_on a ≡ false → Flagged s → Flagged (act s a).0
unfolding act
act-Flagged s (posts r loop now) e h =
    respawn-IsFlagged s (enqueue r loop now [] s.queue).0 (flag-enqueue r loop now s.queue) h
act-Flagged s (posts_again r since now) e h =
    let w : Wake = record { now = now; meanwhile = λ q. q } in
    respawn-IsFlagged s (wake_up r since w s.queue).0 (flag-wake_up r since now s.queue) h
act-Flagged s (wakes env) e h = wake-IsFlagged env s.queue s.processor h
act-Flagged s (sends_end now result) e h = send_ends-IsFlagged now result s.queue s.processor h
act-Flagged s maps_end e h = mapping_ends-IsFlagged s.queue s.processor h
act-Flagged s cancels e h = cancel-IsFlagged s.queue s.processor h
act-Flagged s (starts delay loop pool) e h =
    respawn-IsFlagged s (start s.queue delay loop pool).0 (flag-lifecycle s.queue delay pool loop).0
      h
act-Flagged s stops e h =
    respawn-IsFlagged s (stopped s.queue (stop_begin s.queue)) (flag-lifecycle s.queue 0 0 none).1 h
act-Flagged s resets e h =
    respawn-IsFlagged s (reset_failed_stop_state s.queue).0 (flag-lifecycle s.queue 0 0 none).2 h
act-Flagged s (stop_goes_on c x) e h = cc
act-Flagged s (ensures loop) e h =
    respawn-IsFlagged s (ensure_processor_started s.queue loop) (flag-lifecycle s.queue 0 0 loop).3
      h

run-Flagged : (s : System) (as' : List Action) → Undisturbed as' → Flagged s → Flagged (run s as').0
unfolding run
run-Flagged s [] u h = h
run-Flagged s (a ∷ as') u h = run-Flagged (act s a).0 as' u.1 (act-Flagged s a u.0 h)

nothing_waits :
    (deadline : Option ℕ) (now : ℕ) (q : Queue) (current : Option QueuedMessage)
    → IsFlagged q current
    → drain_round deadline now q ≡ some true
    → waiting q (record { phase = halted; current = current }) ≡ []
unfolding drain_round
nothing_waits deadline now q none h e = ground arith
nothing_waits deadline now q (some m) h e = ground arith

-- If `drain` answers true, no message that was taken is left, in the queue or in hand, after any
-- interleaving in which no stop goes on.
pub drain_complete :
    (as' : List Action) (deadline : Option ℕ) (now : ℕ)
    → Undisturbed as'
    → drain_round deadline now (run idle as').0.queue ≡ some true
    → pending (run idle as').0 ≡ []
drain_complete as' deadline now u e =
    let s = (run idle as').0 in
    nothing_waits deadline now s.queue s.processor.current (run-Flagged idle as' u tt) e
