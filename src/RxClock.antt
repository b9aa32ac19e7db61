-- ===== src/RxClock.antt =====
-- The timing state of a connection to the radio (meshtastic_utils.py), and the probes of
-- meshtastic/health.py. The packets are in RxClock/Receiving, connections in RxClock/Connecting. Times are milliseconds of the wall clock or of the
-- monotonic clock; the sections under the locks are taken one after the other. Finer digits of a
-- float, infinities and NaN are left out.
pub mod Receiving
pub mod Connecting
pub mod Steps
pub mod Skews
pub mod Draining
pub mod Claims
pub mod Once
mod Tests
use meshtastic_matrix_relay.Prelude.{
  ℕ, zero, suc, ◌+◌, ◌-◌, max, Bool, true, false, ◌&&◌, ◌||◌, not, Option, none, some, List, [],
  ◌∷◌, ltb, leb, ◌==◌, if◌then◌else◌, ℤ, pos, negsuc, pos_part,
}
use meshtastic_matrix_relay.Text.{Text, codes}
use meshtastic_matrix_relay.PyValue.{
  Value, null, int, dict, Fields, get, get_in, or_default, as_dict, int_of, float_of,
}

abbrev pub max_skew : ℕ
max_skew = 172800000

abbrev pub track_grace : ℕ
track_grace = 60000

-- An observed skew, wall clock minus rxTime, by its two parts.
pub record Skew : Type 0 where
  pub wall : ℕ
  pub rx : ℕ

abbrev pub observed_skew : ℕ → ℕ → Skew
observed_skew wall rx = record { wall = wall; rx = rx }

pub record Clock : Type 0 where
  pub relay_start_time : ℕ
  pub connection_started : ℕ
  pub skew : Option Skew
  pub drain_applied : Bool
  pub drain_deadline : Option ℕ
  pub drain_complete : Bool
  pub reconnect_deadline : Option ℕ
  pub deadlines : List (ℕ × ℕ)

-- What the clocks say during one packet, and whether the timer of the drain is alive.
pub record Readings : Type 0 where
  pub prune_mono : ℕ
  pub claim_wall : ℕ
  pub mono : ℕ
  pub seed_wall : ℕ
  pub seed_mono : ℕ
  pub timer_alive : Bool

-- `abs(observed_skew) > RX_TIME_SKEW_BOOTSTRAP_MAX_SKEW_SECS`
abbrev pub is_too_large : Skew → Bool
is_too_large s = ltb (s.rx + max_skew) s.wall || ltb (s.wall + max_skew) s.rx

-- `_prune_health_probe_tracking`
unfoldable pub prune : ℕ → List (ℕ × ℕ) → List (ℕ × ℕ)
prune now [] = []
prune now ((id, deadline) ∷ deadlines) =
    let rest = prune now deadlines in if leb deadline now then rest else (id, deadline) ∷ rest

unfoldable pub is_awaited : ℕ → List (ℕ × ℕ) → Bool
is_awaited id [] = false
is_awaited id ((other, deadline) ∷ deadlines) = other == id || is_awaited id deadlines

unfoldable pub untrack : ℕ → List (ℕ × ℕ) → List (ℕ × ℕ)
untrack id [] = []
untrack id ((other, deadline) ∷ deadlines) =
    let rest = untrack id deadlines in if other == id then rest else (other, deadline) ∷ rest

unfoldable pub set_deadline : ℕ → ℕ → List (ℕ × ℕ) → List (ℕ × ℕ)
set_deadline id deadline [] = (id, deadline) ∷ []
set_deadline id deadline ((other, d) ∷ deadlines) =
    let rest = set_deadline id deadline deadlines in
    if other == id then (id, deadline) ∷ deadlines else (other, d) ∷ rest

abbrev pub tracked_probes : Option ℕ → ℕ → ℕ → List (ℕ × ℕ) → List (ℕ × ℕ)
tracked_probes none deadline now deadlines = deadlines
tracked_probes (some id) deadline now deadlines = set_deadline id deadline (prune now deadlines)

module _ (parse_int : Text → Option ℤ) where
  abbrev positive : Option ℤ → Option ℕ
  positive (some (pos (suc n))) = some (suc n)
  positive _ = none

  -- `_coerce_positive_int_id`
  abbrev pub coerce_positive_int_id : Option Value → Option ℕ
  coerce_positive_int_id v = positive (int_of parse_int (or_default v null))

  abbrev first_id : Option ℕ → Option ℕ → Option ℕ
  first_id (some n) later = some n
  first_id none later = later

  -- `_extract_packet_request_id`
  unfoldable pub extract_packet_request_id : Fields → Option ℕ
  extract_packet_request_id packet =
      let decoded = as_dict (get packet (codes "decoded")) in
      first_id (coerce_positive_int_id (get packet (codes "requestId"))) (
        first_id (coerce_positive_int_id (get packet (codes "request_id"))) (
          first_id (coerce_positive_int_id (get_in decoded (codes "requestId")))
            (coerce_positive_int_id (get_in decoded (codes "request_id")))))

  -- `_track_health_probe_request_id`: the clock is read for the deadline, and once more to prune.
  unfoldable pub track_health_probe_request_id : Value → ℕ → ℕ → ℕ → Clock → Clock
  track_health_probe_request_id raw timeout now prune_now c = record c {
    deadlines =
        tracked_probes (coerce_positive_int_id (some raw)) (now + max timeout 1000 + track_grace)
          prune_now c.deadlines;
  }

abbrev same_ℤ : ℤ → ℤ → Bool
same_ℤ (pos m) (pos n) = m == n
same_ℤ (negsuc m) (negsuc n) = m == n
same_ℤ _ _ = false

-- Whether both numbers are known and differ.
abbrev is_other : Option ℤ → Option ℤ → Bool
is_other (some sender) (some local) = not (same_ℤ sender local)
is_other _ _ = false

abbrev pub keep_or_set : Option Skew → Skew → Option Skew
keep_or_set (some s) observed = some s
keep_or_set none observed = some observed

-- A response that is claimed calibrates the skew, if nothing has.
unfoldable pub calibrate : ℕ → ℕ → Option Skew → Option Skew
calibrate wall rx skew =
    if ltb 0 rx && not (is_too_large (observed_skew wall rx))
    then keep_or_set skew (observed_skew wall rx)
    else skew

unfoldable pub claim_id : Readings → ℕ → ℕ → Clock → Clock × Bool
claim_id t rx id c =
    if is_awaited id (prune t.prune_mono c.deadlines)
    then (
      record c {
        deadlines = untrack id (prune t.prune_mono c.deadlines);
        skew = calibrate t.claim_wall rx c.skew;
      },
      true,
    )
    else (record c { deadlines = prune t.prune_mono c.deadlines }, false)

abbrev pub claim_of : Readings → ℕ → Bool → Option ℕ → Clock → Clock × Bool
claim_of t rx other none c = (c, false)
claim_of t rx other (some id) c = if other then (c, false) else claim_id t rx id c

module _ (parse_int : Text → Option ℤ) where
  -- Whether a packet is from another node than the one of the interface, as far as both are known.
  abbrev pub is_foreign : Fields → Value → Bool
  is_foreign packet local_num =
      is_other (int_of parse_int (or_default (get packet (codes "from")) null))
        (int_of parse_int local_num)

  -- `_claim_health_probe_response_and_maybe_calibrate`
  unfoldable pub claim : Readings → ℕ → Fields → Value → Clock → Clock × Bool
  unfolding claim_id
  claim t rx packet local_num c =
      claim_of t rx (is_foreign packet local_num) (extract_packet_request_id parse_int packet) c
