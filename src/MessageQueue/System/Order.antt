-- ===== src/MessageQueue/System/Order.antt =====
-- First in, first out: every message that was taken is settled or pending, in order.
use meshtastic_matrix_relay.Prelude.{
  ◌≡◌, refl, sym, ap, ◌∙◌, Option, none, some, List, [], ◌∷◌, ◌++◌, arith, if_rule, ℕ, Bool, true,
  false, ◌&&◌, not,
}
use mathlib.Core.List.{append-nil, append_assoc}
use meshtastic_matrix_relay.MessageQueue.{Queue, QueuedMessage}
use meshtastic_matrix_relay.MessageQueue.Lifecycle.{
  same, StopCall, StopEvent, task_ended, loop_closed, executor_ended, wait_expired, start,
  stop_begin, stop_step, reset_failed_stop_state, ensure_processor_started,
}
use meshtastic_matrix_relay.MessageQueue.Enqueue.{Wake, wake_up, enqueue}
use meshtastic_matrix_relay.MessageQueue.Processor.{
  Phase, halted, Processor, Settled, Step, wake, send_ends, mapping_ends, cancel,
}
use meshtastic_matrix_relay.MessageQueue.Processor.Settling.{
  in_hand, waiting, messages_of, Advances, wake-Advances, send_ends-Advances, mapping_ends-Advances,
  cancel-Advances,
}
use meshtastic_matrix_relay.MessageQueue.Processor.Returning.{
  is_halted, HasLetGo, wake-HasLetGo, send_ends-HasLetGo, mapping_ends-HasLetGo, cancel-HasLetGo,
}
use meshtastic_matrix_relay.MessageQueue.System.Messages.{
  messages-start, messages-stop, messages-reset, messages-ensure, messages-stop_step,
  messages-enqueue, messages-wake_up,
}
use meshtastic_matrix_relay.MessageQueue.System.{
  System, Action, posts, posts_again, wakes, sends_end, maps_end, cancels, starts, stops, resets,
  stop_goes_on, ensures, act, run, taken, respawn, idle, stopped, stepped, untouched, lost_in_hand,
  closed, goes_on_with,
}

abbrev pub pending : System → List QueuedMessage
pending s = waiting s.queue s.processor

respawn_at :
    (q : Queue) (phase : Phase) (current : Option QueuedMessage) (owner : Option ℕ)
    → let p : Processor = record { phase = phase; current = current } in
      HasLetGo p
      → HasLetGo (respawn q p owner).processor × (pending (respawn q p owner) ≡ waiting q p)
respawn_at q halted none owner h = ground arith
respawn_at q halted (some m) owner h = cc (h refl)
respawn_at q _ current owner h = (h, refl)

respawn_lem :
    (q : Queue) (p : Processor) (owner : Option ℕ)
    → HasLetGo p
    → HasLetGo (respawn q p owner).processor × (pending (respawn q p owner) ≡ waiting q p)
respawn_lem q p = respawn_at q p.phase p.current

-- What a step adds and settles, against what was pending before.
abbrev Balances : System → System × List QueuedMessage × List Settled → Type 0
Balances s (s', taken', settled) =
    HasLetGo s'.processor × (messages_of settled ++ pending s' ≡ pending s ++ taken')

stepped-Balances :
    (s : System) (step : Step)
    → HasLetGo step.1
    → Advances (pending s) step
    → Balances s (stepped s.owner step)
stepped-Balances s (q', p', settled) h e = (h, e ∙ sym (append-nil (pending s)))

queued-Balances :
    (s : System) (q' : Queue) (added : List QueuedMessage)
    → HasLetGo s.processor
    → q'.messages ≡ s.queue.messages ++ added
    → Balances s (respawn q' s.processor s.owner, added, [])
queued-Balances s q' added h e =
    let p = s.processor in
    (
      (respawn_lem q' p s.owner h).0,
      (respawn_lem q' p s.owner h).1
          ∙ ap (λ ms. in_hand p.current ++ ms) e
          ∙ sym (append_assoc (in_hand p.current) s.queue.messages added),
    )

untouched-Balances :
    (s : System) (q' : Queue)
    → HasLetGo s.processor
    → q'.messages ≡ s.queue.messages
    → Balances s (untouched q' s)
untouched-Balances s q' h e = queued-Balances s q' [] h (e ∙ sym (append-nil s.queue.messages))

messages_of-lost_in_hand :
    (current : Option QueuedMessage) → messages_of (lost_in_hand current) ≡ in_hand current
messages_of-lost_in_hand none = refl
messages_of-lost_in_hand (some m) = refl

-- What the closed loop takes with it was at the front.
closed-Balances :
    (s : System) (q' : Queue) (owned : Bool)
    → HasLetGo s.processor
    → q'.messages ≡ s.queue.messages
    → Balances s (closed q' owned s)
closed-Balances s q' true h e =
    let gone : Processor = record { phase = halted; current = none } in
    let kept = respawn_lem q' gone s.owner (λ e'. refl) in
    (kept.0, rw (messages_of-lost_in_hand, append-nil, kept.1, e) refl)
closed-Balances s q' false h e = untouched-Balances s q' h e

goes_on_with-Balances :
    (c : StopCall) (e : StopEvent) (s : System)
    → HasLetGo s.processor
    → Balances s (goes_on_with c e s)
goes_on_with-Balances c task_ended s h =
    if_rule (Balances s) (same c.task s.owner && not (is_halted s.processor.phase))
      (λ _. (h, sym (append-nil (pending s))))
      (λ _.
        untouched-Balances s (stop_step (c, s.queue) task_ended).1 h
          (messages-stop_step c s.queue task_ended))
goes_on_with-Balances c loop_closed s h =
    closed-Balances s (stop_step (c, s.queue) loop_closed).1 (same c.task s.owner) h
      (messages-stop_step c s.queue loop_closed)
goes_on_with-Balances c executor_ended s h =
    untouched-Balances s (stop_step (c, s.queue) executor_ended).1 h
      (messages-stop_step c s.queue executor_ended)
goes_on_with-Balances c wait_expired s h =
    untouched-Balances s (stop_step (c, s.queue) wait_expired).1 h
      (messages-stop_step c s.queue wait_expired)

act-Balances : (s : System) (a : Action) → HasLetGo s.processor → Balances s (act s a)
unfolding act
act-Balances s (posts r loop now) h =
    queued-Balances s (enqueue r loop now [] s.queue).0 (taken r (enqueue r loop now [] s.queue).1)
      h (messages-enqueue r loop now s.queue)
act-Balances s (posts_again r since now) h =
    let w : Wake = record { now = now; meanwhile = λ q. q } in
    queued-Balances s (wake_up r since w s.queue).0 (taken r (wake_up r since w s.queue).1) h
      (messages-wake_up r since now s.queue)
act-Balances s (wakes env) h =
    stepped-Balances s (wake env s.queue s.processor) (wake-HasLetGo env s.queue s.processor h)
      (wake-Advances env s.queue s.processor)
act-Balances s (sends_end now result) h =
    stepped-Balances s (send_ends now result s.queue s.processor)
      (send_ends-HasLetGo now result s.queue s.processor h)
      (send_ends-Advances now result s.queue s.processor)
act-Balances s maps_end h =
    stepped-Balances s (mapping_ends s.queue s.processor)
      (mapping_ends-HasLetGo s.queue s.processor h) (mapping_ends-Advances s.queue s.processor)
act-Balances s cancels h =
    stepped-Balances s (cancel s.queue s.processor) (cancel-HasLetGo s.queue s.processor h)
      (cancel-Advances s.queue s.processor)
act-Balances s (starts delay loop pool) h =
    untouched-Balances s (start s.queue delay loop pool).0 h
      (messages-start s.queue delay loop pool)
act-Balances s stops h =
    untouched-Balances s (stopped s.queue (stop_begin s.queue)) h (messages-stop s.queue)
act-Balances s resets h =
    untouched-Balances s (reset_failed_stop_state s.queue).0 h (messages-reset s.queue)
act-Balances s (stop_goes_on c e) h = goes_on_with-Balances c e s h
act-Balances s (ensures loop) h =
    untouched-Balances s (ensure_processor_started s.queue loop) h (messages-ensure s.queue loop)

messages_of-append :
    (xs ys : List Settled) → messages_of (xs ++ ys) ≡ messages_of xs ++ messages_of ys
messages_of-append [] ys = refl
messages_of-append (x ∷ xs) ys = ap (λ ms. x.message ∷ ms) (messages_of-append xs ys)

run-Balances : (s : System) (as' : List Action) → HasLetGo s.processor → Balances s (run s as')
unfolding run
run-Balances s [] h = (h, sym (append-nil (pending s)))
run-Balances s (a ∷ as') h =
    let (s', taken₁, settled₁) = act s a in
    let (h', e) = act-Balances s a h in
    let (h'', e') = run-Balances s' as' h' in
    let (s'', taken₂, settled₂) = run s' as' in
    (
      h'',
      rw messages_of-append (
          append_assoc (messages_of settled₁) (messages_of settled₂) (pending s'')
          ∙ ap (λ ms. messages_of settled₁ ++ ms) e'
          ∙ sym (append_assoc (messages_of settled₁) (pending s') taken₂)
          ∙ ap (λ ms. ms ++ taken₂) e
          ∙ append_assoc (pending s) taken₁ taken₂),
    )

-- From a new queue, after any interleaving of calls, processor steps, send results, cancellations
-- and shutdowns, closed event loops included: the messages that were settled, followed by those
-- still pending, are those that were taken, in the order in which they were taken. A message is
-- settled when it is recorded as sent, failed or cancelled, dropped by a full queue as it comes
-- back, abandoned by a loop that ends, or lost in the hand of a coroutine whose event loop is
-- closed. So none is doubled or overtaken, and none goes missing but by one of these.
pub fifo :
    (as' : List Action)
    → let (s, taken', settled) = run idle as' in messages_of settled ++ pending s ≡ taken'
fifo as' = (run-Balances idle as' (λ e. refl)).1
