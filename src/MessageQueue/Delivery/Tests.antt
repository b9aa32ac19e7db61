-- ===== src/MessageQueue/Delivery/Tests.antt =====
-- A tracked message: sent, answered, and its timeout. `parse` reads no numeral.
use meshtastic_matrix_relay.Prelude.{
  ◌≡◌, ◌≢◌, arith, refl, true, false, Option, none, some, [], ◌∷◌, ℤ, pos,
}
use meshtastic_matrix_relay.Text.{Text, codes, text_eq}
use meshtastic_matrix_relay.PyValue.{bool, Value, float, str, dict, Fields, end, field, get}
use meshtastic_matrix_relay.MessageQueue.Delivery.{
  sent, ack, nak, timeout, nobody, queue, Tracking, prepare, send_delivery_reaction, on_response,
  wake_at, unanswered_at, expire, schedule_delivery_timeout, mark_delivery_sent, marks, responds,
  expires, step, run,
}
use meshtastic_matrix_relay.MessageQueue.Delivery.Receipts.{
  Receipts, default_emoji, info_of, get_delivery_receipts_config, create_delivery_info, has_emoji,
}

abbrev parse : Text → Option ℤ
parse s = none

abbrev emoji_table : Fields
emoji_table = field (codes "sent") (str (codes "s")) (
    field (codes "ack") (str (codes "a"))
      (field (codes "nak") (str (codes "n")) (field (codes "timeout") (str (codes "t")) end)))

abbrev info : Fields
info = field (codes "room_id") (str (codes "!room")) (
    field (codes "event_id") (str (codes "$event")) (
      field (codes "timeout_secs") (float (pos 5000))
        (field (codes "reactions") (dict emoji_table) end)))

abbrev untracked : Tracking
untracked = record {
  info = info;
  has_loop = false;
  states = [];
  want_ack = false;
  listener = nobody;
}

abbrev tracked : Tracking
tracked = record {
  info = info;
  has_loop = true;
  states = record { done = false; sleeping = 0 } ∷ [];
  want_ack = true;
  listener = queue;
}

-- The answer of a node that could not deliver.
abbrev refusal : Value
refusal = dict (
    field (codes "decoded")
      (dict (
        field (codes "routing") (dict (field (codes "errorReason") (str (codes "NO_ROUTE")) end))
          end))
      end)

abbrev acknowledgement : Value
acknowledgement = dict end

is_tracked_now : prepare untracked ≡ tracked
unfolding prepare get text_eq
is_tracked_now = refl

no_answer : (run parse tracked (marks true ∷ expires 0 true ∷ [])).1 ≡ sent ∷ timeout ∷ []
unfolding step mark_delivery_sent schedule_delivery_timeout send_delivery_reaction expire wake_at
    unanswered_at get text_eq
no_answer = refl

early_refusal :
    (run parse tracked (responds refusal true ∷ marks true ∷ expires 0 true ∷ [])).1 ≡ nak ∷ []
unfolding step mark_delivery_sent schedule_delivery_timeout send_delivery_reaction expire
    on_response wake_at unanswered_at get text_eq
early_refusal = refl

-- An answer after the timeout is told all the same.
late_answer :
    (run parse tracked (marks true ∷ expires 0 true ∷ responds acknowledgement true ∷ [])).1
    ≡ sent ∷ timeout ∷ ack ∷ []
unfolding step mark_delivery_sent schedule_delivery_timeout send_delivery_reaction expire
    on_response wake_at unanswered_at get text_eq
late_answer = refl

abbrev show : Value → Text
show (str s) = s
show _ = codes "?"

abbrev config : Fields
config =
    field (codes "meshtastic")
      (dict
        (field (codes "delivery_receipts") (dict (field (codes "enabled") (bool true) end)) end))
      end

abbrev defaults : Receipts
defaults = record {
  enabled = true;
  request_ack = true;
  timeout_secs = pos 60000;
  emoji = λ r. show (str (default_emoji r));
}

abbrev configured : Tracking
configured = record {
  info = info_of (codes "!room") (codes "$event") defaults;
  has_loop = false;
  states = [];
  want_ack = false;
  listener = nobody;
}

makes_the_info :
    create_delivery_info parse show (codes "!room") (codes "$event") (some config)
    ≡ some (some configured.info)
unfolding create_delivery_info get_delivery_receipts_config get text_eq
makes_the_info = refl

ack_has_emoji : has_emoji configured.info ack ≡ true
unfolding get text_eq
ack_has_emoji = refl

a_room : codes "!room" ≢ []
a_room e = ground arith

an_event : codes "$event" ≢ []
an_event e = ground arith
