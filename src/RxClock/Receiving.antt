-- ===== src/RxClock/Receiving.antt =====
-- A packet and the clocks: `_seed_connect_time_skew` of meshtastic/health.py, and the first part of
-- `on_meshtastic_message` of meshtastic/events.py.
use meshtastic_matrix_relay.Prelude.{
  ℕ, ◌+◌, ◌-◌, Bool, true, false, ◌&&◌, ◌||◌, not, Option, none, some, ltb, leb, ◌==◌,
  if◌then◌else◌, ℤ, pos, pos_part,
}
use meshtastic_matrix_relay.Text.{Text, codes}
use meshtastic_matrix_relay.PyValue.{Value, int, Fields, get, or_default, float_of}
use meshtastic_matrix_relay.RxClock.{Skew, Clock, Readings, observed_skew, is_too_large, claim}

abbrev bootstrap_window : ℕ
bootstrap_window = 180000

abbrev pub is_known {ℓ} : {A : Type ℓ} → Option A → Bool
is_known none = false
is_known (some a) = true

abbrev pub at_least : Option ℕ → ℕ → Bool
at_least none now = false
at_least (some deadline) now = leb now deadline

-- A deadline of the past is cleared.
abbrev pub unless_past : Option ℕ → ℕ → Option ℕ
unless_past deadline now = if at_least deadline now then deadline else none

-- A packet from before the connection calibrates only while one of two windows is open.
abbrev pub may_not_seed : Readings → ℕ → Clock → Bool
may_not_seed t rx c =
    not (leb c.relay_start_time rx)
    && (ltb bootstrap_window (t.seed_mono - c.connection_started)
        || (not (is_known c.drain_deadline)
            && not (is_known (unless_past c.reconnect_deadline t.seed_mono))))

abbrev pub seed_unset : Readings → ℕ → Clock → Clock × Bool
seed_unset t rx c =
    let cleared = unless_past c.reconnect_deadline t.seed_mono in
    if may_not_seed t rx c
    then (record c { reconnect_deadline = cleared }, false)
    else if is_too_large (observed_skew t.seed_wall rx)
    then (record c { reconnect_deadline = cleared }, false)
    else (
      record c {
        skew = some (observed_skew t.seed_wall rx);
        reconnect_deadline =
            if not (leb c.relay_start_time rx) && not (is_known c.drain_deadline)
            then none
            else cleared;
      },
      true,
    )

-- `_seed_connect_time_skew`
unfoldable pub seed_connect_time_skew : Readings → ℕ → Clock → Clock × Bool
seed_connect_time_skew t rx c =
    if rx == 0 then (c, false) else if is_known c.skew then (c, false) else seed_unset t rx c

-- What becomes of a packet: it answers a probe, comes while the radio empties its store, is used up
-- for the calibration, is older than the connection, or is let through.
pub data Admission : Type 0 where
  probe_response draining bootstrap old fresh : Admission

-- `now < deadline` of the drain.
abbrev pub is_draining : Option ℕ → ℕ → Bool
is_draining none now = false
is_draining (some deadline) now = ltb now deadline

-- The drain ends at the first packet behind its deadline, where its timer is not there to do it.
unfoldable pub end_drain : Readings → Clock → Clock
end_drain t c =
    if is_known c.drain_deadline && (not (is_draining c.drain_deadline t.mono) && not t.timer_alive)
    then record c { drain_deadline = none; drain_complete = true }
    else c

-- `rx_time < effective_relay_start_time`
abbrev pub is_before_start : ℕ → Option Skew → ℕ → Bool
is_before_start start none rx = ltb rx start
is_before_start start (some s) rx = ltb (rx + s.wall) (start + s.rx)

abbrev pub judge : ℕ → Clock × Bool → Clock × Admission
judge rx (c, calibrated) =
    if calibrated && ltb rx c.relay_start_time
    then (c, bootstrap)
    else if not (rx == 0) && is_before_start c.relay_start_time c.skew rx
    then (c, old)
    else (c, fresh)

unfoldable pub after_claim : Readings → ℕ → Clock × Bool → Clock × Admission
unfolding seed_connect_time_skew end_drain
after_claim t rx (c, true) = (c, probe_response)
after_claim t rx (c, false) =
    if is_draining c.drain_deadline t.mono
    then ((seed_connect_time_skew t rx c).0, draining)
    else judge rx (seed_connect_time_skew t rx (end_drain t c))

abbrev rx_part : Option ℤ → ℕ
rx_part none = 0
rx_part (some z) = pos_part z

-- The time of a packet; one that is none, or before zero, counts as zero.
abbrev pub rx_time : (Text → Option ℤ) → Fields → ℕ
rx_time parse_float packet =
    rx_part (float_of parse_float (or_default (get packet (codes "rxTime")) (int (pos 0))))

-- The part of `on_meshtastic_message` that looks at the clocks.
unfoldable pub receive :
    (Text → Option ℤ) → (Text → Option ℤ) → Readings → Fields → Value → Clock → Clock × Admission
unfolding after_claim claim
receive parse_int parse_float t packet local_num c =
    after_claim t (rx_time parse_float packet)
      (claim parse_int t (rx_time parse_float packet) packet local_num c)
