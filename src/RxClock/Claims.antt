-- ===== src/RxClock/Claims.antt =====
-- The answers to the probes.
use meshtastic_matrix_relay.Prelude.{
  ℕ, ◌≡◌, ◌≢◌, refl, ap, ◌∙◌, Bool, true, false, ◌&&◌, not, Option, none, some, List, [], ◌∷◌, ◌==◌,
  ltb, if_rule, arith,
}
use meshtastic_matrix_relay.RxClock.{
  Clock, Readings, is_too_large, observed_skew, is_awaited, untrack, set_deadline, prune, claim_id,
  claim_of,
}
use meshtastic_matrix_relay.RxClock.Receiving.{
  Admission, probe_response, is_known, may_not_seed, seed_connect_time_skew, end_drain, is_draining,
  is_before_start, judge, after_claim,
}

abbrev pub Untracked : ℕ → List (ℕ × ℕ) → Type 0
Untracked id deadlines = is_awaited id deadlines ≡ false

pub Untracked-prune :
    (id now : ℕ) (deadlines : List (ℕ × ℕ))
    → Untracked id deadlines
    → Untracked id (prune now deadlines)
unfolding prune is_awaited
Untracked-prune id now [] h = refl
Untracked-prune id now ((other, deadline) ∷ deadlines) h =
    ground (arith, h, Untracked-prune id now deadlines)

Untracked-untrack :
    (id other : ℕ) (deadlines : List (ℕ × ℕ))
    → Untracked id deadlines
    → Untracked id (untrack other deadlines)
unfolding untrack is_awaited
Untracked-untrack id other [] h = refl
Untracked-untrack id other ((o, deadline) ∷ deadlines) h =
    ground (arith, h, Untracked-untrack id other deadlines)

untrack-Untracked : (id : ℕ) (deadlines : List (ℕ × ℕ)) → Untracked id (untrack id deadlines)
unfolding untrack is_awaited
untrack-Untracked id [] = refl
untrack-Untracked id ((o, deadline) ∷ deadlines) = ground (arith, untrack-Untracked id deadlines)

pub Untracked-set_deadline :
    (id other deadline : ℕ) (deadlines : List (ℕ × ℕ))
    → other ≢ id
    → Untracked id deadlines
    → Untracked id (set_deadline other deadline deadlines)
unfolding set_deadline is_awaited
Untracked-set_deadline id other deadline [] o h = ground (arith, o)
Untracked-set_deadline id other deadline ((k, d) ∷ deadlines) o h =
    ground (arith, o, h, Untracked-set_deadline id other deadline deadlines o)

-- What the rest of the handler does leaves the probes.
seed-deadlines :
    (t : Readings) (rx : ℕ) (c : Clock) → (seed_connect_time_skew t rx c).0.deadlines ≡ c.deadlines
unfolding seed_connect_time_skew
seed-deadlines t rx c =
    if_rule Same (rx == 0) (λ _. refl)
      (λ _.
        if_rule Same (is_known c.skew) (λ _. refl)
          (λ _.
            if_rule Same (may_not_seed t rx c) (λ _. refl)
              (λ _.
                if_rule Same (is_too_large (observed_skew t.seed_wall rx)) (λ _. refl)
                  (λ _. refl))))
  where
    Same : Clock × Bool → Type 0
    Same r = r.0.deadlines ≡ c.deadlines

end_drain-deadlines : (t : Readings) (c : Clock) → (end_drain t c).deadlines ≡ c.deadlines
unfolding end_drain
end_drain-deadlines t c =
    if_rule (λ (d : Clock). d.deadlines ≡ c.deadlines)
      (is_known c.drain_deadline
        && (not (is_draining c.drain_deadline t.mono) && not t.timer_alive))
      (λ _. refl) (λ _. refl)

-- `judge` leaves the clock, and says of no packet that it answers a probe.
record IsJudged (c : Clock) (r : Clock × Admission) : Type 0 where
  same : r.0 ≡ c
  no_response : r.1 ≢ probe_response

judge-IsJudged : (rx : ℕ) (r : Clock × Bool) → IsJudged r.0 (judge rx r)
judge-IsJudged rx (c, calibrated) =
    if_rule (IsJudged c) (calibrated && ltb rx c.relay_start_time)
      (λ _. record { same = refl; no_response = λ e. ground (arith, e) })
      (λ _.
        if_rule (IsJudged c) (not (rx == 0) && is_before_start c.relay_start_time c.skew rx)
          (λ _. record { same = refl; no_response = λ e. ground (arith, e) })
          (λ _. record { same = refl; no_response = λ e. ground (arith, e) }))

pub record IsHandled (before : Clock × Bool) (r : Clock × Admission) : Type 0 where
  pub same : r.0.deadlines ≡ before.0.deadlines
  pub response : r.1 ≡ probe_response → before.1 ≡ true

pub after_claim-IsHandled :
    (t : Readings) (rx : ℕ) (r : Clock × Bool) → IsHandled r (after_claim t rx r)
unfolding after_claim
after_claim-IsHandled t rx (c, true) = record { same = refl; response = λ _. refl }
after_claim-IsHandled t rx (c, false) =
    if_rule (IsHandled (c, false)) (is_draining c.drain_deadline t.mono)
      (λ _. record { same = seed-deadlines t rx c; response = λ e. absurd (ground (arith, e)) })
      (λ _.
        let judged = judge-IsJudged rx (seed_connect_time_skew t rx (end_drain t c)) in
        record {
          same =
              ap (λ (d : Clock). d.deadlines) judged.same
              ∙ seed-deadlines t rx (end_drain t c)
              ∙ end_drain-deadlines t c;
          response = λ e. absurd (judged.no_response e);
        })

pub Untracked-claim_of :
    (id : ℕ) (t : Readings) (rx : ℕ) (other : Bool) (asked : Option ℕ) (c : Clock)
    → Untracked id c.deadlines
    → Untracked id (claim_of t rx other asked c).0.deadlines
unfolding claim_id
Untracked-claim_of id t rx other none c h = h
Untracked-claim_of id t rx other (some asked) c h =
    if_rule (λ (r : Clock × Bool). Untracked id r.0.deadlines) other (λ _. h)
      (λ _.
        if_rule (λ (r : Clock × Bool). Untracked id r.0.deadlines)
          (is_awaited asked (prune t.prune_mono c.deadlines))
          (λ _. Untracked-untrack id asked _ (Untracked-prune id t.prune_mono c.deadlines h))
          (λ _. Untracked-prune id t.prune_mono c.deadlines h))

-- An id that is claimed was tracked, and is no more.
pub claimed-Untracked :
    (id : ℕ) (t : Readings) (rx : ℕ) (other : Bool) (c : Clock)
    → (claim_of t rx other (some id) c).1 ≡ true
    → (is_awaited id (prune t.prune_mono c.deadlines) ≡ true)
      × Untracked id (claim_of t rx other (some id) c).0.deadlines
unfolding claim_id
claimed-Untracked id t rx other c =
    if_rule Gone other (λ _ e. absurd (ground (arith, e)))
      (λ _.
        if_rule Gone (is_awaited id (prune t.prune_mono c.deadlines))
          (λ tracked e. (tracked, untrack-Untracked id _)) (λ _ e. absurd (ground (arith, e))))
  where
    Gone : Clock × Bool → Type 0
    Gone r =
        r.1 ≡ true
        → (is_awaited id (prune t.prune_mono c.deadlines) ≡ true) × Untracked id r.0.deadlines
