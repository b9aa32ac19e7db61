-- ===== src/RxClock/Steps.antt =====
-- The courses that the timing state can take.
use meshtastic_matrix_relay.Prelude.{ℕ, Bool, Option, List, [], ◌∷◌, ℤ}
use meshtastic_matrix_relay.Text.{Text}
use meshtastic_matrix_relay.PyValue.{Value, Fields}
use meshtastic_matrix_relay.RxClock.{Clock, Readings, track_health_probe_request_id}
use meshtastic_matrix_relay.RxClock.Receiving.{receive}
use meshtastic_matrix_relay.RxClock.Connecting.{
  connect, publish, roll_back, end_at_deadline, timer_failed,
}

-- What changes the timing state.
pub data Step : Type 0 where
  receives : Readings → Fields → Value → Step
  tracks : Value → ℕ → ℕ → ℕ → Step
  connects : ℕ → ℕ → ℕ → Step
  publishes : Bool → ℕ → Step
  rolls_back : Bool → Bool → Bool → Step
  expires : ℕ → ℕ → Step
  timer_fails : ℕ → Step

module _ (parse_int parse_float : Text → Option ℤ) where
  unfoldable pub step : Step → Clock → Clock
  unfolding receive
  step (receives t packet local_num) c = (receive parse_int parse_float t packet local_num c).0
  step (tracks raw timeout now prune_now) c =
      track_health_probe_request_id parse_int raw timeout now prune_now c
  step (connects wall started now) c = connect wall started now c
  step (publishes pending now) c = publish pending now c
  step (rolls_back armed applied reconnect_armed) c = roll_back armed applied reconnect_armed c
  step (expires deadline now) c = end_at_deadline deadline now c
  step (timer_fails deadline) c = timer_failed deadline c

  unfoldable pub run : List Step → Clock → Clock
  unfolding step
  run [] c = c
  run (s ∷ steps) c = run steps (step s c)
