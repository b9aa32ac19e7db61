-- ===== src/RxClock/Skews.antt =====
-- The skew of a connection, and the packets that are let through by it.
use meshtastic_matrix_relay.Prelude.{
  ℕ, ◌<◌, ◌≡◌, ◌≢◌, ◌⊎◌, refl, ◌∙◌, subst, Bool, true, false, ◌&&◌, not, Option, none, some, ltb,
  ◌==◌, if_rule, Bool-cases, inl, inr, arith, ℤ, ◌≤◌, ◌+◌,
}
use meshtastic_matrix_relay.Text.{Text}
use meshtastic_matrix_relay.PyValue.{Value, Fields}
use meshtastic_matrix_relay.RxClock.{
  Skew, Clock, Readings, is_too_large, observed_skew, is_awaited, prune, calibrate, claim_id,
  claim_of, claim, is_foreign, extract_packet_request_id,
}
use meshtastic_matrix_relay.RxClock.Receiving.{
  Admission, fresh, is_known, may_not_seed, seed_connect_time_skew, end_drain, is_draining,
  is_before_start, judge, after_claim, rx_time, receive,
}

-- What seeding leaves: the start, and the skew unless it is set by this packet, which it is not where
-- one is known.
record IsSeeded (c : Clock) (r : Clock × Bool) : Type 0 where
  same_start : r.0.relay_start_time ≡ c.relay_start_time
  kept : r.1 ≡ false → r.0.skew ≡ c.skew
  was_known : is_known c.skew ≡ true → r.1 ≡ false

seed-IsSeeded : (t : Readings) (rx : ℕ) (c : Clock) → IsSeeded c (seed_connect_time_skew t rx c)
unfolding seed_connect_time_skew
seed-IsSeeded t rx c =
    if_rule (IsSeeded c) (rx == 0)
      (λ _. record { same_start = refl; kept = λ _. refl; was_known = λ _. refl })
      (λ _.
        if_rule (IsSeeded c) (is_known c.skew)
          (λ _. record { same_start = refl; kept = λ _. refl; was_known = λ _. refl })
          (λ unknown.
            if_rule (IsSeeded c) (may_not_seed t rx c)
              (λ _. record { same_start = refl; kept = λ _. refl; was_known = λ _. refl })
              (λ _.
                if_rule (IsSeeded c) (is_too_large (observed_skew t.seed_wall rx))
                  (λ _. record { same_start = refl; kept = λ _. refl; was_known = λ _. refl })
                  (λ _. record {
                    same_start = refl;
                    kept = λ e. absurd (ground (arith, e));
                    was_known = λ k. absurd (ground (arith, k, unknown));
                  }))))

-- Claiming leaves all but the probes and the skew.
record IsClaimed (c : Clock) (r : Clock × Bool) : Type 0 where
  same_start : r.0.relay_start_time ≡ c.relay_start_time
  deadline : r.0.drain_deadline ≡ c.drain_deadline
  unclaimed : r.1 ≡ false → r.0.skew ≡ c.skew
  once : (s : Skew) → c.skew ≡ some s → r.0.skew ≡ some s

calibrate-was_known :
    (wall rx : ℕ) (skew : Option Skew) (s : Skew) → skew ≡ some s → calibrate wall rx skew ≡ some s
unfolding calibrate
calibrate-was_known wall rx none s e = cc
calibrate-was_known wall rx (some r) s e =
    if_rule (λ k. k ≡ some s) (ltb 0 rx && not (is_too_large (observed_skew wall rx))) (λ _. e)
      (λ _. e)

claim_of-IsClaimed :
    (t : Readings) (rx : ℕ) (other : Bool) (id : Option ℕ) (c : Clock)
    → IsClaimed c (claim_of t rx other id c)
unfolding claim_id
claim_of-IsClaimed t rx other none c = record {
  same_start = refl;
  deadline = refl;
  unclaimed = λ _. refl;
  once = λ s e. e;
}
claim_of-IsClaimed t rx other (some id) c =
    if_rule (IsClaimed c) other
      (λ _. record { same_start = refl; deadline = refl; unclaimed = λ _. refl; once = λ s e. e })
      (λ _.
        if_rule (IsClaimed c) (is_awaited id (prune t.prune_mono c.deadlines))
          (λ _. record {
            same_start = refl;
            deadline = refl;
            unclaimed = λ e. absurd (ground (arith, e));
            once = λ s e. calibrate-was_known t.claim_wall rx c.skew s e;
          })
          (λ _. record {
            same_start = refl;
            deadline = refl;
            unclaimed = λ _. refl;
            once = λ s e. e;
          }))

-- A time that is corrected by the skew, if one is known, is not before the start.
abbrev pub NotBefore : ℕ → Option Skew → ℕ → Type 0
NotBefore start none rx = start ≤ rx
NotBefore start (some s) rx = start + s.rx ≤ rx + s.wall

-- A time is in time for a clock if it is none, or, by the skew that is known, not before the start.
abbrev pub IsInTime : Clock → ℕ → Type 0
IsInTime c rx = (rx ≡ 0) ⊎ NotBefore c.relay_start_time c.skew rx

-- Of a packet that came to one clock and left another: the drain was over, it is in time, and if it
-- is from before the start by the sender's clock, then the skew was known before.
pub record IsFresh (before : Clock) (mono rx : ℕ) (after : Clock) : Type 0 where
  pub drained : is_draining before.drain_deadline mono ≡ false
  pub in_time : IsInTime after rx
  pub was_known : rx ≢ 0 → rx < after.relay_start_time → is_known before.skew ≡ true

abbrev IfFresh : Clock → ℕ → ℕ → Clock × Admission → Type 0
IfFresh before mono rx r = r.1 ≡ fresh → IsFresh before mono rx r.0

early_is_old :
    (start rx : ℕ) (skew : Option Skew)
    → skew ≡ none
    → (not (rx == 0) && is_before_start start skew rx) ≡ false
    → rx ≢ 0
    → rx < start
    → ⊥
early_is_old start rx none e in_time some_time early = ground (arith, in_time, some_time, early)
early_is_old start rx (some s) e in_time some_time early = cc

known_before :
    (c : Clock) (rx : ℕ) (r : Clock × Bool)
    → IsSeeded c r
    → (r.1 && ltb rx r.0.relay_start_time) ≡ false
    → (not (rx == 0) && is_before_start r.0.relay_start_time r.0.skew rx) ≡ false
    → rx ≢ 0
    → rx < r.0.relay_start_time
    → is_known c.skew ≡ true
known_before c rx (after, true) h no_bootstrap in_time some_time early =
    ground (arith, no_bootstrap, early)
known_before c rx (after, false) h no_bootstrap in_time some_time early =
    was_known c.skew (h.kept refl)
  where
    was_known : (skew : Option Skew) → after.skew ≡ skew → is_known skew ≡ true
    was_known none e =
        absurd (early_is_old after.relay_start_time rx after.skew e in_time some_time early)
    was_known (some s) e = refl

not_before :
    (start : ℕ) (skew : Option Skew) (rx : ℕ)
    → is_before_start start skew rx ≡ false
    → NotBefore start skew rx
not_before start none rx h = ground (arith, h)
not_before start (some s) rx h = ground (arith, h)

IsInTime-of :
    (c : Clock) (rx : ℕ)
    → (not (rx == 0) && is_before_start c.relay_start_time c.skew rx) ≡ false
    → IsInTime c rx
IsInTime-of c rx h = elim (Bool-cases (rx == 0)) [
  | inl y ↦ inl (ground (arith, y))
  | inr n ↦ inr (not_before c.relay_start_time c.skew rx (ground (n, h, arith)))
]

IfFresh-judge :
    (before c : Clock) (mono rx : ℕ) (r : Clock × Bool)
    → is_draining before.drain_deadline mono ≡ false
    → c.skew ≡ before.skew
    → IsSeeded c r
    → IfFresh before mono rx (judge rx r)
IfFresh-judge before c mono rx (after, calibrated) drained same h =
    if_rule (IfFresh before mono rx) (calibrated && ltb rx after.relay_start_time)
      (λ _ e. absurd (ground (arith, e)))
      (λ no_bootstrap.
        if_rule (IfFresh before mono rx)
          (not (rx == 0) && is_before_start after.relay_start_time after.skew rx)
          (λ _ e. absurd (ground (arith, e)))
          (λ in_time _. record {
            drained = drained;
            in_time = IsInTime-of after rx in_time;
            was_known = λ some_time early.
                subst (λ skew. is_known skew ≡ true) same
                  (known_before c rx (after, calibrated) h no_bootstrap in_time some_time early);
          }))

end_drain-skew : (t : Readings) (c : Clock) → (end_drain t c).skew ≡ c.skew
unfolding end_drain
end_drain-skew t c =
    if_rule (λ (d : Clock). d.skew ≡ c.skew)
      (is_known c.drain_deadline
        && (not (is_draining c.drain_deadline t.mono) && not t.timer_alive))
      (λ _. refl) (λ _. refl)

IfFresh-after_claim :
    (t : Readings) (rx : ℕ) (before : Clock) (r : Clock × Bool)
    → IsClaimed before r
    → IfFresh before t.mono rx (after_claim t rx r)
unfolding after_claim
IfFresh-after_claim t rx before (c, true) h = λ e. absurd (ground (arith, e))
IfFresh-after_claim t rx before (c, false) h =
    if_rule (IfFresh before t.mono rx) (is_draining c.drain_deadline t.mono)
      (λ _ e. absurd (ground (arith, e)))
      (λ drained.
        IfFresh-judge before (end_drain t c) t.mono rx (seed_connect_time_skew t rx (end_drain t c))
          (subst (λ d. is_draining d t.mono ≡ false) h.deadline drained)
          (end_drain-skew t c ∙ h.unclaimed refl) (seed-IsSeeded t rx (end_drain t c)))

module _ (parse_int parse_float : Text → Option ℤ) where
  -- A packet that `on_meshtastic_message` lets through came after the drain; its time is none, or, by
  -- the skew that is known then, not before the start of the connection; and one that is from before
  -- the start by its own clock is let through only where the skew was known before it came.
  pub receive-IsFresh :
      (t : Readings) (packet : Fields) (local_num : Value) (c : Clock)
      → (receive parse_int parse_float t packet local_num c).1 ≡ fresh
      → IsFresh c t.mono
          (rx_time parse_float packet)
          (receive parse_int parse_float t packet local_num c).0
  unfolding receive claim
  receive-IsFresh t packet local_num c =
      IfFresh-after_claim t (rx_time parse_float packet) c
        (claim parse_int t (rx_time parse_float packet) packet local_num c)
        (claim_of-IsClaimed t (rx_time parse_float packet) (is_foreign parse_int packet local_num)
          (extract_packet_request_id parse_int packet) c)
