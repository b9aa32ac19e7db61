-- ===== src/MessageQueue/Delivery/Timeouts.antt =====
-- How often a Matrix user is told of a timeout.
use meshtastic_matrix_relay.Prelude.{
  ℕ, zero, suc, ◌+◌, ◌≤◌, ◌≡◌, refl, ltb, Bool, ◌&&◌, not, Option, List, [], ◌∷◌, ◌++◌,
  if◌then◌else◌, ℤ, arith,
}
use meshtastic_matrix_relay.Text.{Text}
use meshtastic_matrix_relay.PyValue.{Value}
use meshtastic_matrix_relay.MessageQueue.Delivery.{
  Reaction, sent, ack, nak, timeout, Listener, nobody, caller, queue, Flag, Tracking, prepare,
  send_delivery_reaction, finish_current, sleep_over, verdict, error_reason, answered, on_response,
  wake_flag, wake_at, unanswered_at, expire, schedule_delivery_timeout, mark_delivery_sent, Event,
  prepares, marks, responds, expires, step, run,
}
use meshtastic_matrix_relay.MessageQueue.Delivery.Answers.{is_prepare}

-- The timeouts that were told of, and the states that are not done.
abbrev pub timeouts : List Reaction → ℕ
timeouts [] = 0
timeouts (timeout ∷ rs) = suc (timeouts rs)
timeouts (_ ∷ rs) = timeouts rs

abbrev pub undone : List Flag → ℕ
undone [] = 0
undone (s ∷ states) = if s.done then undone states else suc (undone states)

abbrev pub preparations : List Event → ℕ
preparations [] = 0
preparations (e ∷ es) = if is_prepare e then suc (preparations es) else preparations es

timeouts-append : (rs qs : List Reaction) → timeouts (rs ++ qs) ≡ timeouts rs + timeouts qs
timeouts-append [] qs = omega arith
timeouts-append (timeout ∷ rs) qs = omega (arith, timeouts-append rs qs)
timeouts-append (sent ∷ rs) qs = timeouts-append rs qs
timeouts-append (ack ∷ rs) qs = timeouts-append rs qs
timeouts-append (nak ∷ rs) qs = timeouts-append rs qs

timeouts-verdict :
    (t : Tracking) (loop_open : Bool) (v : Value)
    → timeouts (send_delivery_reaction t loop_open (verdict v)) ≡ 0
unfolding send_delivery_reaction
timeouts-verdict t loop_open v = ground arith

timeouts-sent :
    (t : Tracking) (loop_open : Bool) → timeouts (send_delivery_reaction t loop_open sent) ≡ 0
unfolding send_delivery_reaction
timeouts-sent t loop_open = ground arith

timeouts-timeout :
    (t : Tracking) (loop_open : Bool) → timeouts (send_delivery_reaction t loop_open timeout) ≤ 1
unfolding send_delivery_reaction
timeouts-timeout t loop_open = ground arith

undone-finish_current : (states : List Flag) → undone (finish_current states) ≤ undone states
undone-finish_current [] = omega arith
undone-finish_current (s ∷ states) = ground arith

undone-sleep_over : (states : List Flag) → undone (sleep_over states) ≡ undone states
undone-sleep_over [] = refl
undone-sleep_over (s ∷ states) = refl

wake_flag-counts :
    (n : ℕ) (s : Flag) (states : List Flag)
    → (if ltb 0 n && not s.done then 1 else 0) + undone (wake_flag n s ∷ states)
      ≤ undone (s ∷ states)
unfolding wake_flag
wake_flag-counts zero s states = omega arith
wake_flag-counts (suc n) s states = ground arith

-- A wake that finds its state not done makes it done.
undone-wake_at :
    (i : ℕ) (states : List Flag)
    → (if unanswered_at i states then 1 else 0) + undone (wake_at i states) ≤ undone states
unfolding wake_at unanswered_at
undone-wake_at i [] = omega arith
undone-wake_at zero (s ∷ states) = wake_flag-counts s.sleeping s states
undone-wake_at (suc i) (s ∷ states) = ground (arith, undone-wake_at i states)

-- What a step tells of timeouts, and what it leaves undone, was undone before, or is new.
abbrev Counted : ℕ → Tracking × List Reaction → Type 0
Counted n (t, rs) = timeouts rs + undone t.states ≤ n

answered-Counted :
    (t : Tracking) (packet : Value) (loop_open : Bool) (l : Listener)
    → Counted (undone t.states) (answered t packet loop_open l)
unfolding answered
answered-Counted t packet loop_open nobody = omega arith
answered-Counted t packet loop_open caller = omega arith
answered-Counted t packet loop_open queue =
    omega
      (arith, timeouts-verdict t loop_open (error_reason packet), undone-finish_current t.states)

expire-Counted :
    (t : Tracking) (i : ℕ) (loop_open : Bool) → Counted (undone t.states) (expire t i loop_open)
unfolding expire
expire-Counted t i loop_open =
    ground (arith, undone-wake_at i t.states, timeouts-timeout t loop_open)

prepare-Counted : (t : Tracking) → undone (prepare t).states ≤ suc (undone t.states)
unfolding prepare
prepare-Counted t = ground arith

module _ (parse : Text → Option ℤ) where
  undone-schedule :
      (t : Tracking) (loop_open : Bool)
      → undone (schedule_delivery_timeout parse t loop_open).states ≡ undone t.states
  unfolding schedule_delivery_timeout
  undone-schedule t loop_open = ground (arith, undone-sleep_over t.states)

  mark_delivery_sent-Counted :
      (t : Tracking) (loop_open : Bool)
      → Counted (undone t.states) (mark_delivery_sent parse t loop_open)
  unfolding mark_delivery_sent
  mark_delivery_sent-Counted t loop_open =
      ground (arith, undone-schedule t loop_open, timeouts-sent t loop_open)

  step-Counted :
      (t : Tracking) (e : Event)
      → Counted (undone t.states + (if is_prepare e then 1 else 0)) (step parse t e)
  unfolding step on_response
  step-Counted t prepares = omega (arith, prepare-Counted t)
  step-Counted t (marks o) = omega (arith, mark_delivery_sent-Counted t o)
  step-Counted t (responds packet o) = omega (arith, answered-Counted t packet o t.listener)
  step-Counted t (expires i o) = omega (arith, expire-Counted t i o)

  -- Whatever happens to a tracking, and in whatever order, no more timeouts are told of than there
  -- were undone states at first and preparations since.
  run-timeouts :
      (t : Tracking) (events : List Event)
      → timeouts (run parse t events).1 ≤ undone t.states + preparations events
  run-timeouts t [] = omega arith
  run-timeouts t (e ∷ events) = ground (
    arith,
    step-Counted t e,
    run-timeouts (step parse t e).0 events,
    timeouts-append (step parse t e).1 (run parse (step parse t e).0 events).1,
  )
