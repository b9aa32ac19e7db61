-- ===== src/Alerts/Independence.antt =====
-- A check moves the machine of each key by the signal of that key alone.
use meshtastic_matrix_relay.Prelude.{ℕ, ◌≡◌, refl, ap, ◌∙◌, Bool, true, false, if◌then◌else◌}
use meshtastic_matrix_relay.Alerts.{
  Key, queue, connection, battery, mesh_silence, channel_utilization, lora_tx_disabled, mqtt,
  same_key, Formats, Monitor, control_room_ids, cooldown_seconds,
}
use meshtastic_matrix_relay.Alerts.Samples.{Sample, is_empty, is_connected}
use meshtastic_matrix_relay.Alerts.Checks.{
  check_queue, check_connection, check_mqtt, check_node, after_connection, check_once, grace_until,
}
use meshtastic_matrix_relay.Alerts.Signals.{
  Status, Signal, drop, status, react, queue_signal, connection_signal, battery_signal,
  silence_signal, utilization_signal, lora_signal, mqtt_signal, signal,
}
use meshtastic_matrix_relay.Alerts.Ledgers.{status-clear}
use meshtastic_matrix_relay.Alerts.Steps.{
  step, status-check_queue, status-connection_ledger, status-check_batteries,
  status-check_mesh_silence, status-check_channel_utilization, status-check_lora_tx,
  status-mqtt_ledger,
}

-- The signals of a connected node, one after the other.
abbrev node_steps : Formats → Sample → Monitor → Key → Status → Status
node_steps formats s m k st =
    let cooldown = cooldown_seconds formats m.settings in
    step cooldown mqtt k (mqtt_signal formats m.settings s m.last_mqtt_probe) (
      step cooldown lora_tx_disabled k (lora_signal formats m.settings s) (
        step cooldown channel_utilization k (utilization_signal formats m.settings s) (
          step cooldown mesh_silence k (silence_signal formats m.settings m.started_at s)
            (step cooldown battery k (battery_signal formats m.settings s) st))))

status-check_node :
    (formats : Formats) (s : Sample) (k : Key) (m : Monitor)
    → status k (check_node formats s m).ledger ≡ node_steps formats s m k (status k m.ledger)
unfolding check_node check_mqtt
status-check_node formats s k m =
    rw
      (
        status-mqtt_ledger formats m.settings s k,
        status-check_lora_tx formats m.settings s k,
        status-check_channel_utilization formats m.settings s k,
        status-check_mesh_silence formats m.settings s k,
        status-check_batteries formats m.settings s k,
      )
      refl

-- The signals of the queue and of the connection.
abbrev first_steps : Formats → Sample → Monitor → Key → Status → Status
first_steps formats s m k st =
    let cooldown = cooldown_seconds formats m.settings in
    step cooldown connection k (connection_signal formats m.settings s (grace_until formats s m))
      (step cooldown queue k (queue_signal formats m.settings s) st)

abbrev pub first_checks : Formats → Sample → Monitor → Monitor
first_checks formats s m =
    check_connection formats s (record m { ledger = check_queue formats m.settings s m.ledger })

status-first_checks :
    (formats : Formats) (s : Sample) (k : Key) (m : Monitor)
    → status k (first_checks formats s m).ledger ≡ first_steps formats s m k (status k m.ledger)
unfolding check_connection grace_until
status-first_checks formats s k m =
    rw (status-connection_ledger formats m.settings s k, status-check_queue formats m.settings s k)
      refl

-- The steps of one check with control rooms.
abbrev all_steps : Formats → Sample → Monitor → Key → Status → Status
all_steps formats s m k st =
    if is_connected s
    then node_steps formats s m k (first_steps formats s m k st)
    else step (cooldown_seconds formats m.settings) mesh_silence k drop
        (first_steps formats s m k st)

status-if :
    (k : Key) (b : Bool) (m1 m2 : Monitor) (st1 st2 : Status)
    → status k m1.ledger ≡ st1
    → status k m2.ledger ≡ st2
    → status k (if b then m1 else m2).ledger ≡ (if b then st1 else st2)
status-if k true m1 m2 st1 st2 p q = p
status-if k false m1 m2 st1 st2 p q = q

status-after_connection :
    (formats : Formats) (s : Sample) (k : Key) (m : Monitor)
    → status k (after_connection formats s (first_checks formats s m)).ledger
      ≡ all_steps formats s m k (status k m.ledger)
unfolding after_connection check_connection react
status-after_connection formats s k m =
    status-if k (is_connected s) _ _ _ _
      (status-check_node formats s k (first_checks formats s m)
        ∙ ap (node_steps formats s m k) (status-first_checks formats s k m))
      (status-clear mesh_silence k (first_checks formats s m).ledger
        ∙ ap (step (cooldown_seconds formats m.settings) mesh_silence k drop)
            (status-first_checks formats s k m))

if_same : (b : Bool) (st : Status) → (if b then st else st) ≡ st
if_same true st = refl
if_same false st = refl

react-if :
    (cooldown : ℕ) (b : Bool) (up down : Signal) (st : Status)
    → (if b then react cooldown up st else react cooldown down st)
      ≡ react cooldown (if b then up else down) st
react-if cooldown true up down st = refl
react-if cooldown false up down st = refl

all_steps-react :
    (formats : Formats) (s : Sample) (k : Key) (m : Monitor) (st : Status)
    → all_steps formats s m k st
      ≡ react (cooldown_seconds formats m.settings) (signal formats k s m) st
unfolding signal same_key react
all_steps-react formats s queue m st = if_same (is_connected s) _
all_steps-react formats s connection m st = if_same (is_connected s) _
all_steps-react formats s k m st =
    react-if (cooldown_seconds formats m.settings) (is_connected s) _ _ st

-- A check with a control room moves each of the seven alerts as a machine of its own: a signal that
-- stands for what was seen of its condition makes it quiet, alerts it, repeats the alert when the
-- cooldown is over, or leaves it, whatever the other alerts do; without a control room nothing
-- moves.
pub check_once-react :
    (formats : Formats) (s : Sample) (k : Key) (m : Monitor)
    → status k (check_once formats s m).ledger ≡ (
        if is_empty (control_room_ids s.config)
        then status k m.ledger
        else react (cooldown_seconds formats m.settings) (signal formats k s m) (status k m.ledger))
unfolding check_once
check_once-react formats s k m =
    status-if k (is_empty (control_room_ids s.config)) _ _ _ _ refl
      (status-after_connection formats s k m ∙ all_steps-react formats s k m (status k m.ledger))
