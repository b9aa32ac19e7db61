-- ===== src/Alerts/Checks.antt =====
-- matrix/alerts.py: the checks of `AlertMonitor`, each on a sample of the runtime.
use meshtastic_matrix_relay.Prelude.{
  ℕ, ◌+◌, ◌-◌, ℤ, pos, Bool, ◌&&◌, not, Option, none, some, [], ◌++◌, leb, ltb, ltb_ℤ, ◌==◌,
  if◌then◌else◌,
}
use meshtastic_matrix_relay.Text.{codes}
use meshtastic_matrix_relay.PyValue.{Fields, null, get, or_default}
use meshtastic_matrix_relay.Alerts.{
  queue, connection, battery, mesh_silence, channel_utilization, lora_tx_disabled, mqtt, Formats,
  Ledger, Monitor, rule, rule_enabled, positive_float, non_negative_float, positive_int,
  control_room_ids, clear, update,
}
use meshtastic_matrix_relay.Alerts.Samples.{
  Probe, Sample, mqtt_connected, queue_level, battery_level, utilization_level, connection_level,
  is_connected, device_metrics, metrics_of_info, or_else, or_start, is_empty, metric_float,
  node_label, not_callable, raised, replied, at_queue, at_connection, at_connection_update,
  at_battery, at_silence, at_silence_update, at_utilization, at_lora, at_mqtt, at_mqtt_update,
}

module _ (formats : Formats) where
  open formats use {is_space, show, parse_float, decimal, fixed, minutes}

  unfoldable pub queue_size : Sample → ℕ
  queue_size s = positive_int formats s.queue_status (codes "queue_size") 0

  unfoldable pub queue_threshold : Fields → ℕ
  queue_threshold settings =
      positive_int formats (rule settings (codes "queue")) (codes "threshold") 10

  unfoldable pub queue_recovery : Fields → ℕ
  queue_recovery settings =
      positive_int formats (rule settings (codes "queue")) (codes "recovery_threshold") 3

  -- `_check_queue`
  unfoldable pub check_queue : Fields → Sample → Ledger → Ledger
  unfolding queue_size queue_threshold queue_recovery
  check_queue settings s l =
      if rule_enabled settings (codes "queue")
      then update formats settings (control_room_ids s.config) queue
          (queue_level (queue_threshold settings) (queue_recovery settings) (queue_size s))
          (s.clock at_queue)
          (codes "Outgoing queue contains "
            ++ (decimal (queue_size s)
                ++ (codes " messages (threshold: "
                    ++ (decimal (queue_threshold settings) ++ codes ")."))))
          (codes "Outgoing queue recovered and now contains "
            ++ (decimal (queue_size s) ++ codes " messages."))
          l
      else l

  -- The end of the grace time, which a suspension that is over begins anew.
  unfoldable pub grace_until : Sample → Monitor → ℕ
  grace_until s m =
      if not s.connection_suspended && m.last_manual_suspend
      then s.clock at_connection
        + non_negative_float formats (rule m.settings (codes "connection")) (codes "grace_seconds")
            120000
      else m.connection_grace_until

  unfoldable pub connection_ledger : Fields → Sample → ℕ → Ledger → Ledger
  connection_ledger settings s grace l =
      if s.connection_suspended
      then clear connection l
      else if rule_enabled settings (codes "connection")
      then update formats settings (control_room_ids s.config) connection
          (connection_level (is_connected s) (s.clock at_connection) grace)
          (s.clock at_connection_update) (codes "Connection to the local Meshtastic node is lost.")
          (codes "Connection to the local Meshtastic node is restored.") l
      else l

  -- `_check_connection`, which leaves `last_manual_suspend` set just where it found a suspension.
  unfoldable pub check_connection : Sample → Monitor → Monitor
  unfolding grace_until connection_ledger
  check_connection s m = record m {
    ledger = connection_ledger m.settings s (grace_until s m) m.ledger;
    last_manual_suspend = s.connection_suspended;
    connection_grace_until = grace_until s m;
  }

  unfoldable pub battery_threshold : Fields → ℕ
  battery_threshold settings =
      positive_float formats (rule settings (codes "battery")) (codes "threshold_percent") 20000

  unfoldable pub battery_recovery : Fields → ℕ
  battery_recovery settings =
      positive_float formats (rule settings (codes "battery")) (codes "recovery_percent") 25000

  unfoldable pub update_battery : Fields → Sample → Fields → Option ℤ → Ledger → Ledger
  unfolding node_label
  update_battery settings s info none l = l
  update_battery settings s info (some level) l =
      if ltb_ℤ (pos 100000) level
      then l
      else (let label =
            node_label formats (or_else (or_default (get info (codes "num")) null) s.node_num)
              info in
          update formats settings (control_room_ids s.config) battery
            (battery_level (battery_threshold settings) (battery_recovery settings) level)
            (s.clock at_battery)
            (codes "Low battery on "
              ++ (label
                  ++ (codes ": "
                      ++ (fixed 0 level
                          ++ (codes "% (threshold: "
                              ++ (fixed 0 (pos (battery_threshold settings)) ++ codes "%)."))))))
            (codes "Battery on "
              ++ (label ++ (codes " recovered to " ++ (fixed 0 level ++ codes "%."))))
            l)

  unfoldable pub battery_ledger : Fields → Sample → Option Fields → Ledger → Ledger
  unfolding update_battery
  battery_ledger settings s none l = l
  battery_ledger settings s (some info) l =
      update_battery settings s info
        (metric_float formats (device_metrics info) (codes "batteryLevel")) l

  -- `_check_batteries`
  unfoldable pub check_batteries : Fields → Sample → Ledger → Ledger
  unfolding battery_ledger
  check_batteries settings s l =
      if rule_enabled settings (codes "battery") then battery_ledger settings s s.info l else l

  unfoldable pub silence_timeout : Fields → ℕ
  silence_timeout settings =
      positive_float formats (rule settings (codes "mesh_silence")) (codes "timeout_seconds")
        3600000

  unfoldable pub startup_grace : Fields → ℕ
  startup_grace settings =
      non_negative_float formats (rule settings (codes "mesh_silence"))
        (codes "startup_grace_seconds") 900000

  unfoldable pub silent_for : Sample → ℕ → ℕ
  silent_for s started = s.clock at_silence - or_start started s.last_packet

  -- `_check_mesh_silence`
  unfoldable pub check_mesh_silence : Fields → ℕ → Sample → Ledger → Ledger
  unfolding silent_for
  check_mesh_silence settings started s l =
      if rule_enabled settings (codes "mesh_silence")
      then if ltb (s.clock at_silence) (started + startup_grace settings)
        then l
        else update formats settings (control_room_ids s.config) mesh_silence
            (some (leb (silence_timeout settings) (silent_for s started)))
            (s.clock at_silence_update)
            (codes "No fresh Meshtastic packets received for "
              ++ (minutes (silent_for s started) ++ codes " minutes."))
            (codes "Fresh Meshtastic traffic has resumed.") l
      else l

  unfoldable pub utilization_threshold : Fields → ℕ
  utilization_threshold settings =
      positive_float formats (rule settings (codes "channel_utilization"))
        (codes "threshold_percent") 40000

  unfoldable pub utilization_recovery : Fields → ℕ
  utilization_recovery settings =
      positive_float formats (rule settings (codes "channel_utilization"))
        (codes "recovery_percent") 30000

  unfoldable pub update_utilization : Fields → Sample → Option ℤ → Ledger → Ledger
  update_utilization settings s none l =
      update formats settings (control_room_ids s.config) channel_utilization none
        (s.clock at_utilization) [] [] l
  update_utilization settings s (some level) l =
      update formats settings (control_room_ids s.config) channel_utilization
        (utilization_level (utilization_threshold settings) (utilization_recovery settings) level)
        (s.clock at_utilization)
        (codes "Channel utilization is "
          ++ (fixed 1 level
              ++ (codes "% (threshold: "
                  ++ (fixed 1 (pos (utilization_threshold settings)) ++ codes "%)."))))
        (codes "Channel utilization recovered to " ++ (fixed 1 level ++ codes "%.")) l

  -- `_check_channel_utilization`
  unfoldable pub check_channel_utilization : Fields → Sample → Ledger → Ledger
  unfolding update_utilization
  check_channel_utilization settings s l =
      if rule_enabled settings (codes "channel_utilization")
      then update_utilization settings s
          (metric_float formats (metrics_of_info s.info) (codes "channelUtilization")) l
      else l

  unfoldable pub update_lora_tx : Fields → Sample → Option Bool → Ledger → Ledger
  update_lora_tx settings s none l = l
  update_lora_tx settings s (some enabled) l =
      update formats settings (control_room_ids s.config) lora_tx_disabled (some (not enabled))
        (s.clock at_lora)
        (codes "LoRa transmission is disabled on the local node. Reception remains enabled.")
        (codes "LoRa transmission is enabled again on the local node.") l

  -- `_check_lora_tx`
  unfoldable pub check_lora_tx : Fields → Sample → Ledger → Ledger
  unfolding update_lora_tx
  check_lora_tx settings s l =
      if rule_enabled settings (codes "lora_tx_disabled")
      then update_lora_tx settings s s.tx_enabled l
      else l

  -- Whether the last probe is too fresh for another one.
  unfoldable pub is_fresh : Fields → Sample → ℕ → Bool
  is_fresh settings s last =
      not (last == 0)
      && ltb (s.clock at_mqtt) (
          last
          + positive_float formats (rule settings (codes "mqtt")) (codes "probe_interval_seconds")
              300000)

  abbrev pub negated : Option Bool → Option Bool
  negated none = none
  negated (some b) = some (not b)

  unfoldable pub update_mqtt : Fields → Sample → Probe → Ledger → Ledger
  update_mqtt settings s not_callable l = l
  update_mqtt settings s raised l = l
  update_mqtt settings s (replied status) l =
      update formats settings (control_room_ids s.config) mqtt (negated (mqtt_connected status))
        (s.clock at_mqtt_update) (codes "MQTT is enabled on the local node but is not connected.")
        (codes "MQTT connection on the local node is restored.") l

  unfoldable pub mqtt_ledger : Fields → Sample → ℕ → Ledger → Ledger
  unfolding update_mqtt
  mqtt_ledger settings s last l =
      if rule_enabled settings (codes "mqtt")
      then if s.mqtt_enabled
        then if is_fresh settings s last then l else update_mqtt settings s s.probe l
        else clear mqtt l
      else l

  unfoldable pub probes : Fields → Sample → ℕ → Bool
  probes settings s last =
      rule_enabled settings (codes "mqtt") && (s.mqtt_enabled && not (is_fresh settings s last))

  -- `_check_mqtt`
  unfoldable pub check_mqtt : Sample → Monitor → Monitor
  unfolding mqtt_ledger probes
  check_mqtt s m = record m {
    ledger = mqtt_ledger m.settings s m.last_mqtt_probe m.ledger;
    last_mqtt_probe =
        if probes m.settings s m.last_mqtt_probe then s.clock at_mqtt else m.last_mqtt_probe;
  }

  -- The checks that need the connected node.
  unfoldable pub check_node : Sample → Monitor → Monitor
  unfolding check_mqtt
  check_node s m = check_mqtt s (record m {
    ledger = check_lora_tx m.settings s (
        check_channel_utilization m.settings s
          (check_mesh_silence m.settings m.started_at s (check_batteries m.settings s m.ledger)));
  })

  unfoldable pub after_connection : Sample → Monitor → Monitor
  unfolding check_node
  after_connection s m =
      if is_connected s then check_node s m else record m { ledger = clear mesh_silence m.ledger }

  -- `check_once`
  unfoldable pub check_once : Sample → Monitor → Monitor
  unfolding after_connection check_connection
  check_once s m =
      if is_empty (control_room_ids s.config)
      then m
      else after_connection s
          (check_connection s (record m { ledger = check_queue m.settings s m.ledger }))
