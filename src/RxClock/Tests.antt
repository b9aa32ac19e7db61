-- ===== src/RxClock/Tests.antt =====
-- Tests.
-- A connection from second 1000 on, with packets before and behind its drain of 15 seconds.
use meshtastic_matrix_relay.RxClock.Connecting.{connect, publish}
use meshtastic_matrix_relay.Prelude.{
  ℕ, ◌≡◌, ◌≢◌, refl, true, false, Option, none, some, List, [], ◌∷◌, ℤ, pos, ◌+◌,
}
use meshtastic_matrix_relay.Text.{Text, codes, text_eq}
use meshtastic_matrix_relay.PyValue.{Fields, null, int, field, end, get}
use meshtastic_matrix_relay.RxClock.{Clock, Readings, extract_packet_request_id, is_awaited, prune}
use meshtastic_matrix_relay.RxClock.Receiving.{
  probe_response, draining, old, fresh, rx_time, receive,
}
use meshtastic_matrix_relay.RxClock.Steps.{Step, receives, connects, publishes, expires, run}
use meshtastic_matrix_relay.RxClock.Skews.{IsFresh, receive-IsFresh}
use meshtastic_matrix_relay.RxClock.Draining.{IsSane, run-IsSane}
use meshtastic_matrix_relay.RxClock.Once.{claimed_once}

abbrev no_text : Text → Option ℤ
no_text s = none

abbrev unconnected : Clock
unconnected = record {
  relay_start_time = 0;
  connection_started = 0;
  skew = none;
  drain_applied = false;
  drain_deadline = none;
  drain_complete = true;
  reconnect_deadline = none;
  deadlines = [];
}

-- All clocks at one reading: the wall clock is 1000 seconds ahead of the monotonic one.
abbrev reading : ℕ → Readings
reading now = record {
  prune_mono = now;
  claim_wall = 1000000 + now;
  mono = now;
  seed_wall = 1000000 + now;
  seed_mono = now;
  timer_alive = false;
}

-- A packet of this second.
abbrev packet_at : ℕ → Fields
packet_at secs = field (codes "rxTime") (int (pos secs)) end

abbrev answer : Fields
answer = field (codes "requestId") (int (pos 7)) end

abbrev connecting : List Step
connecting = connects 1000000 0 0 ∷ publishes true 0 ∷ []

abbrev connected : Clock
connected = record unconnected {
  relay_start_time = 1000000;
  drain_applied = true;
  drain_deadline = some 15000;
  drain_complete = false;
}

run-connecting : run no_text no_text connecting unconnected ≡ connected
unfolding run connect publish
run-connecting = refl

early_is_dropped :
    (receive no_text no_text (reading 5000) (packet_at 1004) null connected).1 ≡ draining
unfolding receive extract_packet_request_id get text_eq
early_is_dropped = refl

late_is_fresh : (receive no_text no_text (reading 20000) (packet_at 1019) null connected).1 ≡ fresh
unfolding receive extract_packet_request_id get text_eq
late_is_fresh = refl

history_is_old : (receive no_text no_text (reading 20000) (packet_at 900) null connected).1 ≡ old
unfolding receive extract_packet_request_id get text_eq
history_is_old = refl

receive-IsFresh_example :
    IsFresh connected 20000
      (rx_time no_text (packet_at 1019))
      (receive no_text no_text (reading 20000) (packet_at 1019) null connected).0
receive-IsFresh_example =
    receive-IsFresh no_text no_text (reading 20000) (packet_at 1019) null connected late_is_fresh

run-IsSane_example : IsSane (
    run no_text no_text
      (connects 1000000 0 0
        ∷ publishes true 0
        ∷ receives (reading 5000) (packet_at 1004) null
        ∷ expires 15000 15000
        ∷ [])
      unconnected)
run-IsSane_example =
    run-IsSane no_text no_text
      (connects 1000000 0 0
        ∷ publishes true 0
        ∷ receives (reading 5000) (packet_at 1004) null
        ∷ expires 15000 15000
        ∷ [])
      unconnected (tt, tt)

abbrev probed : Clock
probed = record connected { deadlines = (7, 90000) ∷ [] }

is_response : (receive no_text no_text (reading 5000) answer null probed).1 ≡ probe_response
unfolding receive extract_packet_request_id get text_eq is_awaited prune
is_response = refl

answer-id : extract_packet_request_id no_text answer ≡ some 7
unfolding extract_packet_request_id get text_eq
answer-id = refl

claimed_once_example :
    (receive no_text no_text (reading 6000) answer null (
      run no_text no_text
        (expires 15000 5500 ∷ [])
        (receive no_text no_text (reading 5000) answer null probed).0)).1
    ≢ probe_response
claimed_once_example =
    claimed_once no_text no_text 7 (reading 5000) (reading 6000) answer answer null null probed
      (expires 15000 5500 ∷ []) answer-id is_response (tt, tt) answer-id
