-- ===== src/RxClock/Connecting.antt =====
-- What meshtastic/connection.py sets when it connects, and the timer of the drain in
-- meshtastic/events.py.
use meshtastic_matrix_relay.Prelude.{
  ℕ, ◌+◌, Bool, true, false, ◌&&◌, not, Option, none, some, ltb, ◌==◌, if◌then◌else◌, [],
}
use meshtastic_matrix_relay.RxClock.{Clock}
use meshtastic_matrix_relay.RxClock.Receiving.{is_draining}

abbrev startup_packet_drain : ℕ
startup_packet_drain = 15000

abbrev reconnect_window : ℕ
reconnect_window = 5000

-- What `connect_meshtastic` sets before the client is published; `now` is the later reading, for the
-- drain that is still on.
unfoldable pub connect : ℕ → ℕ → ℕ → Clock → Clock
connect wall started now c =
    let fresh_clock = record c {
      relay_start_time = wall;
      connection_started = started;
      skew = none;
      deadlines = [];
    } in
    if not c.drain_applied
    then record fresh_clock { drain_deadline = none; reconnect_deadline = none }
    else if is_draining c.drain_deadline now
    then record fresh_clock { reconnect_deadline = some (started + reconnect_window) }
    else record fresh_clock {
      drain_deadline = none;
      drain_complete = true;
      reconnect_deadline = some (started + reconnect_window);
    }

-- What it sets when the client is published, where the drain was pending at `connect`.
unfoldable pub publish : Bool → ℕ → Clock → Clock
publish pending now c =
    if pending && not c.drain_applied
    then record c {
      drain_deadline = some (now + startup_packet_drain);
      drain_applied = true;
      drain_complete = false;
    }
    else c

-- What it takes back of an attempt that failed.
unfoldable pub roll_back : Bool → Bool → Bool → Clock → Clock
roll_back armed applied reconnect_armed c =
    let back =
      if armed
      then record c {
        drain_deadline = none;
        drain_complete = true;
        drain_applied = if applied then false else c.drain_applied;
      }
      else c in
    if reconnect_armed then record back { reconnect_deadline = none } else back

abbrev pub is_deadline : Option ℕ → ℕ → Bool
is_deadline none deadline = false
is_deadline (some d) deadline = d == deadline

-- The timer of `_schedule_startup_drain_deadline_cleanup`, and that it cannot be started; a timer that
-- comes too early is set again.
unfoldable pub end_at_deadline : ℕ → ℕ → Clock → Clock
end_at_deadline deadline now c =
    if is_deadline c.drain_deadline deadline && not (ltb now deadline)
    then record c { drain_deadline = none; drain_complete = true }
    else c

unfoldable pub timer_failed : ℕ → Clock → Clock
timer_failed deadline c =
    if is_deadline c.drain_deadline deadline
    then record c { drain_deadline = none; drain_complete = true }
    else c
