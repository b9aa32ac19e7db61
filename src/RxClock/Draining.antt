-- ===== src/RxClock/Draining.antt =====
-- The timing state over any course of connections, packets, probes and timers.
use meshtastic_matrix_relay.Prelude.{
  ℕ, ◌+◌, ◌≤◌, ◌≡◌, refl, Bool, true, false, ◌&&◌, not, Option, none, some, List, [], ◌∷◌, ltb,
  ◌==◌, if_rule, arith, ℤ,
}
use meshtastic_matrix_relay.Text.{Text}
use meshtastic_matrix_relay.PyValue.{Value, Fields}
use meshtastic_matrix_relay.RxClock.Steps.{
  Step, receives, tracks, connects, publishes, rolls_back, expires, timer_fails, step, run,
}
use meshtastic_matrix_relay.RxClock.{
  Skew, Clock, Readings, max_skew, is_too_large, observed_skew, is_awaited, calibrate, prune,
  claim_id, claim, claim_of, is_foreign, extract_packet_request_id, track_health_probe_request_id,
}
use meshtastic_matrix_relay.RxClock.Receiving.{
  is_draining, seed_unset, may_not_seed, is_known, is_before_start, seed_connect_time_skew,
  end_drain, after_claim, judge, Admission, rx_time, receive,
}
use meshtastic_matrix_relay.RxClock.Connecting.{
  is_deadline, connect, publish, roll_back, end_at_deadline, timer_failed,
}

-- A skew of at most 48 hours.
abbrev pub IsBounded : Option Skew → Type 0
IsBounded none = Unit
IsBounded (some s) = (s.wall ≤ s.rx + max_skew) × (s.rx ≤ s.wall + max_skew)

-- Of the drain: that it was applied, its deadline, and whether it is said to be complete.
abbrev pub IsSettled : Bool → Option ℕ → Bool → Type 0
IsSettled false none complete = Unit
IsSettled false (some d) complete = ⊥
IsSettled true none complete = complete ≡ true
IsSettled true (some d) complete = complete ≡ false

-- The skew is bounded; there is a deadline only for a drain that is applied and not complete, and a
-- drain that is applied and has none is complete.
abbrev pub IsSane : Clock → Type 0
IsSane c = IsBounded c.skew × IsSettled c.drain_applied c.drain_deadline c.drain_complete

IsBounded-observed :
    (wall rx : ℕ)
    → is_too_large (observed_skew wall rx) ≡ false
    → IsBounded (some (observed_skew wall rx))
IsBounded-observed wall rx h = ground (arith, h)

IsBounded-calibrate :
    (wall rx : ℕ) (skew : Option Skew) → IsBounded skew → IsBounded (calibrate wall rx skew)
unfolding calibrate
IsBounded-calibrate wall rx none h =
    if_rule IsBounded (ltb 0 rx && not (is_too_large (observed_skew wall rx)))
      (λ small. IsBounded-observed wall rx (ground (arith, small))) (λ _. tt)
IsBounded-calibrate wall rx (some s) h =
    if_rule IsBounded (ltb 0 rx && not (is_too_large (observed_skew wall rx))) (λ _. h) (λ _. h)

IsSane-claim_id : (t : Readings) (rx id : ℕ) (c : Clock) → IsSane c → IsSane (claim_id t rx id c).0
unfolding claim_id
IsSane-claim_id t rx id c h =
    if_rule (λ (r : Clock × Bool). IsSane r.0) (is_awaited id (prune t.prune_mono c.deadlines))
      (λ _. (IsBounded-calibrate t.claim_wall rx c.skew h.0, h.1)) (λ _. h)

IsSane-claim_of :
    (t : Readings) (rx : ℕ) (other : Bool) (id : Option ℕ) (c : Clock)
    → IsSane c
    → IsSane (claim_of t rx other id c).0
IsSane-claim_of t rx other none c h = h
IsSane-claim_of t rx other (some id) c h =
    if_rule (λ (r : Clock × Bool). IsSane r.0) other (λ _. h) (λ _. IsSane-claim_id t rx id c h)

IsSane-seed_unset : (t : Readings) (rx : ℕ) (c : Clock) → IsSane c → IsSane (seed_unset t rx c).0
IsSane-seed_unset t rx c h =
    if_rule (λ (r : Clock × Bool). IsSane r.0) (may_not_seed t rx c) (λ _. h)
      (λ _.
        if_rule (λ (r : Clock × Bool). IsSane r.0) (is_too_large (observed_skew t.seed_wall rx))
          (λ _. h) (λ small. (IsBounded-observed t.seed_wall rx small, h.1)))

IsSane-seed_connect_time_skew :
    (t : Readings) (rx : ℕ) (c : Clock) → IsSane c → IsSane (seed_connect_time_skew t rx c).0
unfolding seed_connect_time_skew
IsSane-seed_connect_time_skew t rx c h =
    if_rule (λ (r : Clock × Bool). IsSane r.0) (rx == 0) (λ _. h)
      (λ _.
        if_rule (λ (r : Clock × Bool). IsSane r.0) (is_known c.skew) (λ _. h)
          (λ _. IsSane-seed_unset t rx c h))

-- A drain that is over is complete, whichever of the two ends it.
IsSettled-over : (applied : Bool) → IsSettled applied none true
IsSettled-over false = tt
IsSettled-over true = refl

IsSettled-unapplied :
    (applied complete : Bool) → not applied ≡ true → IsSettled applied none complete
IsSettled-unapplied false complete h = tt
IsSettled-unapplied true complete h = ground (arith, h)

IsSane-end_drain : (t : Readings) (c : Clock) → IsSane c → IsSane (end_drain t c)
unfolding end_drain
IsSane-end_drain t c h =
    if_rule IsSane
      (is_known c.drain_deadline
        && (not (is_draining c.drain_deadline t.mono) && not t.timer_alive))
      (λ _. (h.0, IsSettled-over c.drain_applied)) (λ _. h)

IsSane-judge : (rx : ℕ) (r : Clock × Bool) → IsSane r.0 → IsSane (judge rx r).0
IsSane-judge rx (c, calibrated) h =
    if_rule (λ (r : Clock × Admission). IsSane r.0) (calibrated && ltb rx c.relay_start_time)
      (λ _. h)
      (λ _.
        if_rule (λ (r : Clock × Admission). IsSane r.0)
          (not (rx == 0) && is_before_start c.relay_start_time c.skew rx) (λ _. h) (λ _. h))

IsSane-after_claim :
    (t : Readings) (rx : ℕ) (r : Clock × Bool) → IsSane r.0 → IsSane (after_claim t rx r).0
unfolding after_claim
IsSane-after_claim t rx (c, true) h = h
IsSane-after_claim t rx (c, false) h =
    if_rule (λ (r : Clock × Admission). IsSane r.0) (is_draining c.drain_deadline t.mono)
      (λ _. IsSane-seed_connect_time_skew t rx c h)
      (λ _.
        IsSane-judge rx (seed_connect_time_skew t rx (end_drain t c))
          (IsSane-seed_connect_time_skew t rx (end_drain t c) (IsSane-end_drain t c h)))

IsSane-connect : (wall started now : ℕ) (c : Clock) → IsSane c → IsSane (connect wall started now c)
unfolding connect
IsSane-connect wall started now c h =
    if_rule IsSane (not c.drain_applied)
      (λ pending. (tt, IsSettled-unapplied c.drain_applied c.drain_complete pending))
      (λ _.
        if_rule IsSane (is_draining c.drain_deadline now) (λ _. (tt, h.1))
          (λ _. (tt, IsSettled-over c.drain_applied)))

IsSane-publish : (pending : Bool) (now : ℕ) (c : Clock) → IsSane c → IsSane (publish pending now c)
unfolding publish
IsSane-publish pending now c h =
    if_rule IsSane (pending && not c.drain_applied) (λ _. (h.0, refl)) (λ _. h)

IsSane-roll_back :
    (armed applied reconnect_armed : Bool) (c : Clock)
    → IsSane c
    → IsSane (roll_back armed applied reconnect_armed c)
unfolding roll_back
IsSane-roll_back true applied true c h = (h.0, IsSettled-over _)
IsSane-roll_back true applied false c h = (h.0, IsSettled-over _)
IsSane-roll_back false applied true c h = h
IsSane-roll_back false applied false c h = h

IsSane-end_at_deadline :
    (deadline now : ℕ) (c : Clock) → IsSane c → IsSane (end_at_deadline deadline now c)
unfolding end_at_deadline
IsSane-end_at_deadline deadline now c h =
    if_rule IsSane (is_deadline c.drain_deadline deadline && not (ltb now deadline))
      (λ _. (h.0, IsSettled-over c.drain_applied)) (λ _. h)

IsSane-timer_failed : (deadline : ℕ) (c : Clock) → IsSane c → IsSane (timer_failed deadline c)
unfolding timer_failed
IsSane-timer_failed deadline c h =
    if_rule IsSane (is_deadline c.drain_deadline deadline)
      (λ _. (h.0, IsSettled-over c.drain_applied)) (λ _. h)

module _ (parse_int parse_float : Text → Option ℤ) where
  IsSane-receive :
      (t : Readings) (packet : Fields) (local_num : Value) (c : Clock)
      → IsSane c
      → IsSane (receive parse_int parse_float t packet local_num c).0
  unfolding receive claim
  IsSane-receive t packet local_num c h =
      IsSane-after_claim t (rx_time parse_float packet)
        (claim parse_int t (rx_time parse_float packet) packet local_num c)
        (IsSane-claim_of t (rx_time parse_float packet) (is_foreign parse_int packet local_num)
          (extract_packet_request_id parse_int packet) c h)

  IsSane-track :
      (raw : Value) (timeout now prune_now : ℕ) (c : Clock)
      → IsSane c
      → IsSane (track_health_probe_request_id parse_int raw timeout now prune_now c)
  unfolding track_health_probe_request_id
  IsSane-track raw timeout now prune_now c h = h

  IsSane-step : (s : Step) (c : Clock) → IsSane c → IsSane (step parse_int parse_float s c)
  unfolding step
  IsSane-step (receives t packet local_num) c h = IsSane-receive t packet local_num c h
  IsSane-step (tracks raw timeout now prune_now) c h = IsSane-track raw timeout now prune_now c h
  IsSane-step (connects wall started now) c h = IsSane-connect wall started now c h
  IsSane-step (publishes pending now) c h = IsSane-publish pending now c h
  IsSane-step (rolls_back armed applied reconnect_armed) c h =
      IsSane-roll_back armed applied reconnect_armed c h
  IsSane-step (expires deadline now) c h = IsSane-end_at_deadline deadline now c h
  IsSane-step (timer_fails deadline) c h = IsSane-timer_failed deadline c h

  -- Whatever packets, probes, connections, failures and timers there are, in any order: a skew that is
  -- kept is at most 48 hours; the drain has a deadline only while it is applied and not said to be
  -- complete; and a drain that is applied and has no deadline is said to be complete, so that who
  -- waits for it goes on.
  pub run-IsSane :
      (steps : List Step) (c : Clock) → IsSane c → IsSane (run parse_int parse_float steps c)
  unfolding run
  run-IsSane [] c h = h
  run-IsSane (s ∷ steps) c h = run-IsSane steps (step parse_int parse_float s c) (IsSane-step s c h)
