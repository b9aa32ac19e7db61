-- ===== src/RxClock/Once.antt =====
-- An answer to a probe is claimed once.
use meshtastic_matrix_relay.Prelude.{
  ℕ, ◌≡◌, ◌≢◌, refl, sym, ap, subst, Bool, true, false, ◌&&◌, not, Option, none, some, List, [],
  ◌∷◌, max, ◌+◌, ltb, if_rule, arith, ℤ,
}
use meshtastic_matrix_relay.Text.{Text}
use meshtastic_matrix_relay.PyValue.{Value, Fields}
use meshtastic_matrix_relay.RxClock.{
  Clock, Readings, track_grace, prune, is_awaited, claim_of, claim, is_foreign,
  coerce_positive_int_id, tracked_probes, extract_packet_request_id, track_health_probe_request_id,
}
use meshtastic_matrix_relay.RxClock.Receiving.{probe_response, is_draining, rx_time, receive}
use meshtastic_matrix_relay.RxClock.Connecting.{
  is_deadline, connect, publish, roll_back, end_at_deadline, timer_failed,
}
use meshtastic_matrix_relay.RxClock.Steps.{
  Step, receives, tracks, connects, publishes, rolls_back, expires, timer_fails, step, run,
}
use meshtastic_matrix_relay.RxClock.Claims.{
  Untracked, Untracked-prune, Untracked-set_deadline, Untracked-claim_of, claimed-Untracked,
  after_claim-IsHandled,
}

abbrev Probes : ℕ → Clock → Type 0
Probes id c = Untracked id c.deadlines

Untracked-connect : (id wall started now : ℕ) (c : Clock) → Probes id (connect wall started now c)
unfolding connect is_awaited
Untracked-connect id wall started now c =
    if_rule (Probes id) (not c.drain_applied) (λ _. refl)
      (λ _. if_rule (Probes id) (is_draining c.drain_deadline now) (λ _. refl) (λ _. refl))

Untracked-publish :
    (id : ℕ) (pending : Bool) (now : ℕ) (c : Clock)
    → Probes id c
    → Probes id (publish pending now c)
unfolding publish
Untracked-publish id pending now c h =
    if_rule (Probes id) (pending && not c.drain_applied) (λ _. h) (λ _. h)

Untracked-roll_back :
    (id : ℕ) (armed applied reconnect_armed : Bool) (c : Clock)
    → Probes id c
    → Probes id (roll_back armed applied reconnect_armed c)
unfolding roll_back
Untracked-roll_back id true applied true c h = h
Untracked-roll_back id true applied false c h = h
Untracked-roll_back id false applied true c h = h
Untracked-roll_back id false applied false c h = h

Untracked-end_at_deadline :
    (id deadline now : ℕ) (c : Clock) → Probes id c → Probes id (end_at_deadline deadline now c)
unfolding end_at_deadline
Untracked-end_at_deadline id deadline now c h =
    if_rule (Probes id) (is_deadline c.drain_deadline deadline && not (ltb now deadline)) (λ _. h)
      (λ _. h)

Untracked-timer_failed :
    (id deadline : ℕ) (c : Clock) → Probes id c → Probes id (timer_failed deadline c)
unfolding timer_failed
Untracked-timer_failed id deadline c h =
    if_rule (Probes id) (is_deadline c.drain_deadline deadline) (λ _. h) (λ _. h)

module _ (parse_int parse_float : Text → Option ℤ) where
  -- A step that does not track this id.
  abbrev LeavesOut : ℕ → Step → Type 0
  LeavesOut id (tracks raw timeout now prune_now) =
      coerce_positive_int_id parse_int (some raw) ≢ some id
  LeavesOut id s = Unit

  abbrev pub NotTracked : ℕ → List Step → Type 0
  NotTracked id [] = Unit
  NotTracked id (s ∷ steps) = LeavesOut id s × NotTracked id steps

  Untracked-receive :
      (id : ℕ) (t : Readings) (packet : Fields) (local_num : Value) (c : Clock)
      → Probes id c
      → Probes id (receive parse_int parse_float t packet local_num c).0
  unfolding receive claim
  Untracked-receive id t packet local_num c h =
      let rx = rx_time parse_float packet in
      let claimed = claim parse_int t rx packet local_num c in
      subst (Untracked id) (sym ((after_claim-IsHandled t rx claimed).same)) (
        Untracked-claim_of id t rx (is_foreign parse_int packet local_num)
          (extract_packet_request_id parse_int packet) c h)

  Untracked-tracked_probes :
      (id : ℕ) (asked : Option ℕ) (deadline now : ℕ) (deadlines : List (ℕ × ℕ))
      → asked ≢ some id
      → Untracked id deadlines
      → Untracked id (tracked_probes asked deadline now deadlines)
  Untracked-tracked_probes id none deadline now deadlines other h = h
  Untracked-tracked_probes id (some k) deadline now deadlines other h =
      Untracked-set_deadline id k deadline (prune now deadlines) (λ same. other (ap some same))
        (Untracked-prune id now deadlines h)

  Untracked-track :
      (id : ℕ) (raw : Value) (timeout now prune_now : ℕ) (c : Clock)
      → coerce_positive_int_id parse_int (some raw) ≢ some id
      → Probes id c
      → Probes id (track_health_probe_request_id parse_int raw timeout now prune_now c)
  unfolding track_health_probe_request_id
  Untracked-track id raw timeout now prune_now c =
      Untracked-tracked_probes id (coerce_positive_int_id parse_int (some raw))
        (now + max timeout 1000 + track_grace) prune_now c.deadlines

  Untracked-step :
      (id : ℕ) (s : Step) (c : Clock)
      → LeavesOut id s
      → Probes id c
      → Probes id (step parse_int parse_float s c)
  unfolding step
  Untracked-step id (receives t packet local_num) c o h =
      Untracked-receive id t packet local_num c h
  Untracked-step id (tracks raw timeout now prune_now) c o h =
      Untracked-track id raw timeout now prune_now c o h
  Untracked-step id (connects wall started now) c o h = Untracked-connect id wall started now c
  Untracked-step id (publishes pending now) c o h = Untracked-publish id pending now c h
  Untracked-step id (rolls_back armed applied reconnect_armed) c o h =
      Untracked-roll_back id armed applied reconnect_armed c h
  Untracked-step id (expires deadline now) c o h = Untracked-end_at_deadline id deadline now c h
  Untracked-step id (timer_fails deadline) c o h = Untracked-timer_failed id deadline c h

  Untracked-run :
      (id : ℕ) (steps : List Step) (c : Clock)
      → NotTracked id steps
      → Probes id c
      → Probes id (run parse_int parse_float steps c)
  unfolding run
  Untracked-run id [] c o h = h
  Untracked-run id (s ∷ steps) c o h =
      Untracked-run id steps (step parse_int parse_float s c) o.1 (Untracked-step id s c o.0 h)

  -- A packet that is taken for an answer has a tracked id, which is then tracked no more.
  response-Untracked :
      (t : Readings) (packet : Fields) (local_num : Value) (c : Clock) (id : ℕ)
      → extract_packet_request_id parse_int packet ≡ some id
      → (receive parse_int parse_float t packet local_num c).1 ≡ probe_response
      → (is_awaited id (prune t.prune_mono c.deadlines) ≡ true)
        × Probes id (receive parse_int parse_float t packet local_num c).0
  unfolding receive claim
  response-Untracked t packet local_num c id e h =
      let rx = rx_time parse_float packet in
      let claimed = claim parse_int t rx packet local_num c in
      let handled = after_claim-IsHandled t rx claimed in
      let (tracked, gone) = claimed-Untracked id t rx (is_foreign parse_int packet local_num) c (
        subst (λ asked. (claim_of t rx (is_foreign parse_int packet local_num) asked c).1 ≡ true) e
          (handled.response h)) in
      (
        tracked,
        subst (Untracked id) (sym handled.same) (
            subst
              (λ asked.
                Untracked id
                  (claim_of t rx (is_foreign parse_int packet local_num) asked c).0.deadlines)
              (sym e) gone),
      )

  -- Once a packet has been taken for the answer to the probe with its id, no packet with this id is
  -- taken for an answer again, whatever happens in between, until the id is tracked anew.
  pub claimed_once :
      (id : ℕ) (t t' : Readings) (packet packet' : Fields) (local_num local_num' : Value)
      (c : Clock) (steps : List Step)
      → extract_packet_request_id parse_int packet ≡ some id
      → (receive parse_int parse_float t packet local_num c).1 ≡ probe_response
      → NotTracked id steps
      → extract_packet_request_id parse_int packet' ≡ some id
      → (receive parse_int parse_float t' packet' local_num' (
          run parse_int parse_float steps (receive parse_int parse_float t packet local_num c).0)).1
        ≢ probe_response
  claimed_once id t t' packet packet' local_num local_num' c steps e h others e' h' =
      let before =
        run parse_int parse_float steps (receive parse_int parse_float t packet local_num c).0 in
      let tracked = (response-Untracked t' packet' local_num' before id e' h').0 in
      let untracked =
        Untracked-prune id t'.prune_mono before.deadlines
          (Untracked-run id steps _ others (response-Untracked t packet local_num c id e h).1) in
      ground (arith, tracked, untracked)
