-- ===== src/MessageQueue/Delivery/Answers.antt =====
-- What a Matrix user is told after the radio has answered.
use meshtastic_matrix_relay.Prelude.{◌≡◌, refl, Bool, true, false, ◌&&◌, not, List, [], ◌∷◌, arith}
use meshtastic_matrix_relay.Text.{Text}
use meshtastic_matrix_relay.MessageQueue.Delivery.{
  Reaction, sent, ack, nak, timeout, Flag, Tracking, finish_current, current_done, sleep_over,
  Event, prepares,
}

abbrev pub all_done : List Flag → Bool
all_done [] = true
all_done (s ∷ states) = s.done && all_done states

abbrev pub are_answers : List Reaction → Bool
are_answers [] = true
are_answers (ack ∷ rs) = are_answers rs
are_answers (nak ∷ rs) = are_answers rs
are_answers (sent ∷ rs) = false
are_answers (timeout ∷ rs) = false

abbrev pub is_prepare : Event → Bool
is_prepare prepares = true
is_prepare _ = false

abbrev pub no_prepare : List Event → Bool
no_prepare [] = true
no_prepare (e ∷ es) = not (is_prepare e) && no_prepare es

finish_current-all_done :
    (states : List Flag) → all_done states ≡ true → all_done (finish_current states) ≡ true
finish_current-all_done [] h = refl
finish_current-all_done (s ∷ states) h = ground arith

sleep_over-all_done : (states : List Flag) → all_done (sleep_over states) ≡ all_done states
sleep_over-all_done [] = refl
sleep_over-all_done (s ∷ states) = refl

-- There is a state, and all of them are done.
abbrev pub settled : List Flag → Bool
settled states = current_done states && all_done states

-- Done, with nothing but answers said.
abbrev Quiet : Tracking × List Reaction → Type 0
Quiet (t, rs) = (settled t.states ≡ true) × (are_answers rs ≡ true)
