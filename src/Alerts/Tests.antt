-- ===== src/Alerts/Tests.antt =====
-- matrix/alerts.py on a control room and a queue that fills and empties.
use meshtastic_matrix_relay.Prelude.{
  ℕ, ◌≡◌, refl, Bool, true, false, none, some, List, [], ◌∷◌, pos, ◌==◌,
}
use meshtastic_matrix_relay.Text.{codes, text_eq}
use meshtastic_matrix_relay.PyValue.{null, int, str, list, dict, nil, cons, Fields, end, field, get}
use meshtastic_matrix_relay.Alerts.{
  queue, Formats, Post, same_key, has_key, clear, update, rule_enabled, positive_int,
  cooldown_seconds, control_ids, control_room_ids,
}
use meshtastic_matrix_relay.Alerts.Samples.{Sample, raised, queue_level, is_connected}
use meshtastic_matrix_relay.Alerts.Checks.{queue_size, queue_threshold, check_queue, check_once}
use meshtastic_matrix_relay.Alerts.Signals.{alerting, status, react, signal_of, signal}
use meshtastic_matrix_relay.Alerts.Independence.{check_once-react}
use meshtastic_matrix_relay.Alerts.Calls.{run}
use meshtastic_matrix_relay.Alerts.Spacing.{paced, new, run-paced}

abbrev formats : Formats
formats = record {
  is_space = λ c. c == 32;
  show = λ v. codes "node";
  parse_int = λ s. none;
  parse_float = λ s. none;
  decimal = λ n. n ∷ [];
  fixed = λ d z. codes "0";
  minutes = λ n. n ∷ [];
}

abbrev config : Fields
config =
    field (codes "matrix_rooms")
      (list (
        cons (dict (field (codes "id") (str (codes "!a:x")) end)) (
          cons
            (dict (
              field (codes "id") (str (codes "!c:x"))
                (field (codes "meshtastic_portal_type") (str (codes "control")) end)))
            nil)))
      end

-- A suspended connection at a time, and a queue of a length.
abbrev sample : ℕ → ℕ → Sample
sample now size = record {
  config = config;
  clock = λ r. now;
  queue_status = field (codes "queue_size") (int (pos size)) end;
  connection_suspended = true;
  has_client = true;
  reconnecting = false;
  last_packet = none;
  info = none;
  node_num = null;
  tx_enabled = none;
  mqtt_enabled = false;
  probe = raised;
}

abbrev kinds : List Post → List (Bool × ℕ)
kinds [] = []
kinds (p ∷ ps) = (p.is_alert, p.at) ∷ kinds ps

-- Full, still full, full after the cooldown, in between, and empty.
abbrev busy_day : List Sample
busy_day =
    sample 5 12 ∷ sample 100 12 ∷ sample 3600005 11 ∷ sample 3600100 7 ∷ sample 3600200 3 ∷ []

control_rooms : control_room_ids config ≡ codes "!c:x" ∷ []
unfolding control_room_ids control_ids text_eq get
control_rooms = refl

busy_posts :
    kinds (run formats busy_day (new formats end queue 0)).ledger.sent
    ≡ (false, 3600200) ∷ (true, 3600005) ∷ (true, 5) ∷ []
unfolding run check_once control_room_ids get text_eq is_connected clear check_queue rule_enabled
    update queue_level positive_int same_key
busy_posts = refl

check_once-react_example :
    status queue (check_once formats (sample 5 12) (new formats end queue 0)).ledger
    ≡ alerting (some 5)
unfolding control_room_ids get text_eq react signal rule_enabled signal_of queue_level
    queue_threshold positive_int queue_size status has_key
check_once-react_example = check_once-react formats (sample 5 12) queue (new formats end queue 0)

run-paced_example :
    paced
      (cooldown_seconds formats end)
      queue
      (run formats busy_day (new formats end queue 0)).ledger.sent
    ≡ true
unfolding get
run-paced_example = run-paced formats end queue refl refl 0 busy_day
