-- ===== src/Alerts/Steps.antt =====
-- Each check of matrix/alerts.py moves the machine of its key by its signal, and no other.
use meshtastic_matrix_relay.Prelude.{
  ℕ, ◌≡◌, Bool, true, false, Option, none, some, List, ltb, ltb_ℤ, ℤ, pos, if◌then◌else◌,
}
use meshtastic_matrix_relay.Text.{Text, codes}
use meshtastic_matrix_relay.PyValue.{Fields}
use meshtastic_matrix_relay.Alerts.{
  Key, queue, connection, battery, mesh_silence, channel_utilization, lora_tx_disabled, mqtt,
  same_key, Formats, Ledger, rule_enabled, clear, update, cooldown_seconds,
}
use meshtastic_matrix_relay.Alerts.Samples.{
  Sample, Probe, not_callable, raised, replied, at_silence, metric_float, device_metrics,
}
use meshtastic_matrix_relay.Alerts.Checks.{
  check_queue, connection_ledger, update_battery, battery_ledger, check_batteries,
  check_mesh_silence, update_utilization, check_channel_utilization, update_lora_tx, check_lora_tx,
  update_mqtt, mqtt_ledger, is_fresh,
}
use meshtastic_matrix_relay.Alerts.Signals.{
  Status, Signal, keep, drop, status, react, signal_of, queue_signal, connection_signal,
  level_signal, info_signal, battery_signal, silence_signal, usage_signal, utilization_signal,
  enabled_signal, lora_signal, probe_signal, mqtt_signal,
}
use meshtastic_matrix_relay.Alerts.Ledgers.{status-clear, status-update, react-keep}

-- The machine of `k` at a signal for `j`.
abbrev pub step : ℕ → Key → Key → Signal → Status → Status
step cooldown j k sig st = if same_key j k then react cooldown sig st else st

module _ (formats : Formats) (settings : Fields) (j k : Key) (l : Ledger) where
  kept : status k l ≡ step (cooldown_seconds formats settings) j k keep (status k l)
  kept = react-keep (same_key j k) (cooldown_seconds formats settings) (status k l)

  dropped : status k (clear j l) ≡ step (cooldown_seconds formats settings) j k drop (status k l)
  unfolding react
  dropped = status-clear j k l

  moved :
      (rooms : List Text) (condition : Option Bool) (now : ℕ) (alert recovery : Text)
      → status k (update formats settings rooms j condition now alert recovery l)
        ≡ step (cooldown_seconds formats settings) j k (signal_of condition now) (status k l)
  moved rooms condition now alert recovery =
      status-update formats settings rooms j k condition now alert recovery l

  branch :
      (b : Bool) (l1 l2 : Ledger) (s1 s2 : Signal)
      → status k l1 ≡ step (cooldown_seconds formats settings) j k s1 (status k l)
      → status k l2 ≡ step (cooldown_seconds formats settings) j k s2 (status k l)
      → status k (if b then l1 else l2)
        ≡ step (cooldown_seconds formats settings) j k (if b then s1 else s2) (status k l)
  branch true l1 l2 s1 s2 p q = p
  branch false l1 l2 s1 s2 p q = q

module _ (formats : Formats) (settings : Fields) (s : Sample) (k : Key) where
  pub status-check_queue :
      (l : Ledger)
      → status k (check_queue formats settings s l)
        ≡ step
            (cooldown_seconds formats settings)
            queue
            k
            (queue_signal formats settings s)
            (status k l)
  unfolding check_queue queue_signal
  status-check_queue l =
      branch formats settings queue k l (rule_enabled settings (codes "queue")) _ _ _ _
        (moved formats settings queue k l _ _ _ _ _) (kept formats settings queue k l)

  pub status-connection_ledger :
      (grace : ℕ) (l : Ledger)
      → status k (connection_ledger formats settings s grace l)
        ≡ step
            (cooldown_seconds formats settings)
            connection
            k
            (connection_signal formats settings s grace)
            (status k l)
  unfolding connection_ledger connection_signal
  status-connection_ledger grace l =
      branch formats settings connection k l s.connection_suspended _ _ _ _
        (dropped formats settings connection k l)
        (branch formats settings connection k l (rule_enabled settings (codes "connection")) _ _ _ _
          (moved formats settings connection k l _ _ _ _ _) (kept formats settings connection k l))

  status-update_battery :
      (info : Fields) (reading : Option ℤ) (l : Ledger)
      → status k (update_battery formats settings s info reading l)
        ≡ step
            (cooldown_seconds formats settings)
            battery
            k
            (level_signal formats settings s reading)
            (status k l)
  unfolding update_battery level_signal
  status-update_battery info none l = kept formats settings battery k l
  status-update_battery info (some z) l =
      branch formats settings battery k l (ltb_ℤ (pos 100000) z) _ _ _ _
        (kept formats settings battery k l) (moved formats settings battery k l _ _ _ _ _)

  status-battery_ledger :
      (info : Option Fields) (l : Ledger)
      → status k (battery_ledger formats settings s info l)
        ≡ step
            (cooldown_seconds formats settings)
            battery
            k
            (info_signal formats settings s info)
            (status k l)
  unfolding battery_ledger info_signal
  status-battery_ledger none l = kept formats settings battery k l
  status-battery_ledger (some info) l =
      status-update_battery info (metric_float formats (device_metrics info) (codes "batteryLevel"))
        l

  pub status-check_batteries :
      (l : Ledger)
      → status k (check_batteries formats settings s l)
        ≡ step
            (cooldown_seconds formats settings)
            battery
            k
            (battery_signal formats settings s)
            (status k l)
  unfolding check_batteries battery_signal
  status-check_batteries l =
      branch formats settings battery k l (rule_enabled settings (codes "battery")) _ _ _ _
        (status-battery_ledger s.info l) (kept formats settings battery k l)

  pub status-check_mesh_silence :
      (started : ℕ) (l : Ledger)
      → status k (check_mesh_silence formats settings started s l)
        ≡ step
            (cooldown_seconds formats settings)
            mesh_silence
            k
            (silence_signal formats settings started s)
            (status k l)
  unfolding check_mesh_silence silence_signal signal_of
  status-check_mesh_silence started l =
      branch formats settings mesh_silence k l (rule_enabled settings (codes "mesh_silence")) _ _ _
        _
        (branch formats settings mesh_silence k l (ltb (s.clock at_silence) _) _ _ _ _
          (kept formats settings mesh_silence k l)
          (moved formats settings mesh_silence k l _ _ _ _ _))
        (kept formats settings mesh_silence k l)

  status-update_utilization :
      (reading : Option ℤ) (l : Ledger)
      → status k (update_utilization formats settings s reading l)
        ≡ step
            (cooldown_seconds formats settings)
            channel_utilization
            k
            (usage_signal formats settings s reading)
            (status k l)
  unfolding update_utilization usage_signal signal_of
  status-update_utilization none l = moved formats settings channel_utilization k l _ _ _ _ _
  status-update_utilization (some z) l = moved formats settings channel_utilization k l _ _ _ _ _

  pub status-check_channel_utilization :
      (l : Ledger)
      → status k (check_channel_utilization formats settings s l)
        ≡ step
            (cooldown_seconds formats settings)
            channel_utilization
            k
            (utilization_signal formats settings s)
            (status k l)
  unfolding check_channel_utilization utilization_signal
  status-check_channel_utilization l =
      branch formats settings channel_utilization k l
        (rule_enabled settings (codes "channel_utilization")) _ _ _ _
        (status-update_utilization _ l) (kept formats settings channel_utilization k l)

  status-update_lora_tx :
      (enabled : Option Bool) (l : Ledger)
      → status k (update_lora_tx formats settings s enabled l)
        ≡ step
            (cooldown_seconds formats settings)
            lora_tx_disabled
            k
            (enabled_signal formats s enabled)
            (status k l)
  unfolding update_lora_tx enabled_signal signal_of
  status-update_lora_tx none l = kept formats settings lora_tx_disabled k l
  status-update_lora_tx (some b) l = moved formats settings lora_tx_disabled k l _ _ _ _ _

  pub status-check_lora_tx :
      (l : Ledger)
      → status k (check_lora_tx formats settings s l)
        ≡ step
            (cooldown_seconds formats settings)
            lora_tx_disabled
            k
            (lora_signal formats settings s)
            (status k l)
  unfolding check_lora_tx lora_signal
  status-check_lora_tx l =
      branch formats settings lora_tx_disabled k l
        (rule_enabled settings (codes "lora_tx_disabled")) _ _ _ _
        (status-update_lora_tx s.tx_enabled l) (kept formats settings lora_tx_disabled k l)

  status-update_mqtt :
      (probe : Probe) (l : Ledger)
      → status k (update_mqtt formats settings s probe l)
        ≡ step
            (cooldown_seconds formats settings)
            mqtt
            k
            (probe_signal formats s probe)
            (status k l)
  unfolding update_mqtt probe_signal
  status-update_mqtt not_callable l = kept formats settings mqtt k l
  status-update_mqtt raised l = kept formats settings mqtt k l
  status-update_mqtt (replied answer) l = moved formats settings mqtt k l _ _ _ _ _

  pub status-mqtt_ledger :
      (last : ℕ) (l : Ledger)
      → status k (mqtt_ledger formats settings s last l)
        ≡ step
            (cooldown_seconds formats settings)
            mqtt
            k
            (mqtt_signal formats settings s last)
            (status k l)
  unfolding mqtt_ledger mqtt_signal
  status-mqtt_ledger last l =
      branch formats settings mqtt k l (rule_enabled settings (codes "mqtt")) _ _ _ _
        (branch formats settings mqtt k l s.mqtt_enabled _ _ _ _
          (branch formats settings mqtt k l (is_fresh formats settings s last) _ _ _ _
            (kept formats settings mqtt k l) (status-update_mqtt s.probe l))
          (dropped formats settings mqtt k l))
        (kept formats settings mqtt k l)
