-- ===== src/Alerts/Calls.antt =====
-- What every call of `_update` and `_clear` keeps of the ledger, a check keeps, and so does a run of
-- checks.
use meshtastic_matrix_relay.Prelude.{
  ℕ, ◌≡◌, refl, Bool, true, false, Option, none, some, List, [], ◌∷◌, ltb, ltb_ℤ, ℤ, pos,
  if◌then◌else◌, ◌+◌,
}
use meshtastic_matrix_relay.Text.{Text, codes}
use meshtastic_matrix_relay.PyValue.{Fields}
use meshtastic_matrix_relay.Alerts.{
  Key, connection, mesh_silence, mqtt, Formats, Ledger, Monitor, rule_enabled, control_room_ids,
  clear, update,
}
use meshtastic_matrix_relay.Alerts.Samples.{
  Sample, Probe, not_callable, raised, replied, is_empty, is_connected, at_silence, metric_float,
  device_metrics,
}
use meshtastic_matrix_relay.Alerts.Checks.{
  check_queue, connection_ledger, check_connection, update_battery, battery_ledger, check_batteries,
  check_mesh_silence, update_utilization, check_channel_utilization, update_lora_tx, check_lora_tx,
  update_mqtt, mqtt_ledger, check_mqtt, check_node, after_connection, check_once, is_fresh,
  startup_grace,
}
use meshtastic_matrix_relay.Alerts.Independence.{first_checks}

-- The alerts that are forgotten while there is nothing to watch.
abbrev pub is_dropped : Key → Bool
is_dropped connection = true
is_dropped mesh_silence = true
is_dropped mqtt = true
is_dropped _ = false

-- The checks at one sample after the other.
unfoldable pub run : Formats → List Sample → Monitor → Monitor
run formats [] m = m
run formats (s ∷ samples) m = run formats samples (check_once formats s m)

module _ (formats : Formats) (settings : Fields) (P : Ledger → Type 0)
    (updates : (rooms : List Text) (j : Key) (condition : Option Bool) (now : ℕ)
        (alert recovery : Text) (l : Ledger)
      → P l
      → P (update formats settings rooms j condition now alert recovery l))
    (clears : (j : Key) (l : Ledger) → is_dropped j ≡ true → P l → P (clear j l)) where
  choose : (b : Bool) (l1 l2 : Ledger) → P l1 → P l2 → P (if b then l1 else l2)
  choose true l1 l2 p q = p
  choose false l1 l2 p q = q

  queue_keeps : (s : Sample) (l : Ledger) → P l → P (check_queue formats settings s l)
  unfolding check_queue
  queue_keeps s l p = choose (rule_enabled settings (codes "queue")) _ _ (updates _ _ _ _ _ _ l p) p

  connection_keeps :
      (s : Sample) (grace : ℕ) (l : Ledger) → P l → P (connection_ledger formats settings s grace l)
  unfolding connection_ledger
  connection_keeps s grace l p =
      choose s.connection_suspended _ _ (clears connection l refl p)
        (choose (rule_enabled settings (codes "connection")) _ _ (updates _ _ _ _ _ _ l p) p)

  reading_keeps :
      (s : Sample) (info : Fields) (reading : Option ℤ) (l : Ledger)
      → P l
      → P (update_battery formats settings s info reading l)
  unfolding update_battery
  reading_keeps s info none l p = p
  reading_keeps s info (some z) l p = choose (ltb_ℤ (pos 100000) z) _ _ p (updates _ _ _ _ _ _ l p)

  info_keeps :
      (s : Sample) (info : Option Fields) (l : Ledger)
      → P l
      → P (battery_ledger formats settings s info l)
  unfolding battery_ledger
  info_keeps s none l p = p
  info_keeps s (some info) l p =
      reading_keeps s info (metric_float formats (device_metrics info) (codes "batteryLevel")) l p

  batteries_keep : (s : Sample) (l : Ledger) → P l → P (check_batteries formats settings s l)
  unfolding check_batteries
  batteries_keep s l p =
      choose (rule_enabled settings (codes "battery")) _ _ (info_keeps s s.info l p) p

  silence_keeps :
      (started : ℕ) (s : Sample) (l : Ledger)
      → P l
      → P (check_mesh_silence formats settings started s l)
  unfolding check_mesh_silence
  silence_keeps started s l p =
      choose (rule_enabled settings (codes "mesh_silence")) _ _
        (choose (ltb (s.clock at_silence) (started + startup_grace formats settings)) _ _ p
          (updates _ _ _ _ _ _ l p))
        p

  usage_keeps :
      (s : Sample) (reading : Option ℤ) (l : Ledger)
      → P l
      → P (update_utilization formats settings s reading l)
  unfolding update_utilization
  usage_keeps s none l p = updates _ _ _ _ _ _ l p
  usage_keeps s (some z) l p = updates _ _ _ _ _ _ l p

  utilization_keeps :
      (s : Sample) (l : Ledger) → P l → P (check_channel_utilization formats settings s l)
  unfolding check_channel_utilization
  utilization_keeps s l p =
      choose (rule_enabled settings (codes "channel_utilization")) _ _ (usage_keeps s _ l p) p

  enabled_keeps :
      (s : Sample) (enabled : Option Bool) (l : Ledger)
      → P l
      → P (update_lora_tx formats settings s enabled l)
  unfolding update_lora_tx
  enabled_keeps s none l p = p
  enabled_keeps s (some b) l p = updates _ _ _ _ _ _ l p

  lora_keeps : (s : Sample) (l : Ledger) → P l → P (check_lora_tx formats settings s l)
  unfolding check_lora_tx
  lora_keeps s l p =
      choose (rule_enabled settings (codes "lora_tx_disabled")) _ _
        (enabled_keeps s s.tx_enabled l p) p

  probe_keeps :
      (s : Sample) (probe : Probe) (l : Ledger) → P l → P (update_mqtt formats settings s probe l)
  unfolding update_mqtt
  probe_keeps s not_callable l p = p
  probe_keeps s raised l p = p
  probe_keeps s (replied answer) l p = updates _ _ _ _ _ _ l p

  mqtt_keeps :
      (s : Sample) (last : ℕ) (l : Ledger) → P l → P (mqtt_ledger formats settings s last l)
  unfolding mqtt_ledger
  mqtt_keeps s last l p =
      choose (rule_enabled settings (codes "mqtt")) _ _
        (choose s.mqtt_enabled _ _
          (choose (is_fresh formats settings s last) _ _ p (probe_keeps s s.probe l p))
          (clears mqtt l refl p))
        p

module _ (formats : Formats) (settings : Fields) (P : Ledger → Type 0)
    (updates : (rooms : List Text) (j : Key) (condition : Option Bool) (now : ℕ)
        (alert recovery : Text) (l : Ledger)
      → P l
      → P (update formats settings rooms j condition now alert recovery l))
    (clears : (j : Key) (l : Ledger) → is_dropped j ≡ true → P l → P (clear j l)) where
  -- What holds of a monitor with these settings.
  abbrev pub Holds : Monitor → Type 0
  Holds m = (m.settings ≡ settings) × P m.ledger

  either : (b : Bool) (m1 m2 : Monitor) → Holds m1 → Holds m2 → Holds (if b then m1 else m2)
  either true m1 m2 p q = p
  either false m1 m2 p q = q

  check_node-Holds : (s : Sample) (m : Monitor) → Holds m → Holds (check_node formats s m)
  unfolding check_node check_mqtt
  check_node-Holds s m (e, p) = (
    e,
    rw e (
        mqtt_keeps formats settings P updates clears s m.last_mqtt_probe _ (
          lora_keeps formats settings P updates clears s _ (
            utilization_keeps formats settings P updates clears s _ (
              silence_keeps formats settings P updates clears m.started_at s _
                (batteries_keep formats settings P updates clears s m.ledger p))))),
  )

  first-Holds : (s : Sample) (m : Monitor) → Holds m → Holds (first_checks formats s m)
  unfolding check_connection
  first-Holds s m (e, p) = (
    e,
    rw e (
        connection_keeps formats settings P updates clears s _ _
          (queue_keeps formats settings P updates clears s m.ledger p)),
  )

  check_once-Holds : (s : Sample) (m : Monitor) → Holds m → Holds (check_once formats s m)
  unfolding check_once after_connection
  check_once-Holds s m h =
      let (e, p) = first-Holds s m h in
      either (is_empty (control_room_ids s.config)) _ _ h (
        either (is_connected s) _ _ (check_node-Holds s (first_checks formats s m) (e, p))
          (e, clears mesh_silence _ refl p))

  pub run-Holds : (samples : List Sample) (m : Monitor) → Holds m → Holds (run formats samples m)
  unfolding run
  run-Holds [] m h = h
  run-Holds (s ∷ samples) m h = run-Holds samples (check_once formats s m) (check_once-Holds s m h)
