-- ===== src/Alerts/Signals.antt =====
-- A reference for matrix/alerts.py: each key is a machine of its own, which is quiet or alerting and
-- gets one signal at each check.
use meshtastic_matrix_relay.Prelude.{
  ℕ, ◌+◌, Bool, true, false, not, ℤ, pos, Option, none, some, leb, ltb, ltb_ℤ, if◌then◌else◌,
}
use meshtastic_matrix_relay.Text.{codes}
use meshtastic_matrix_relay.PyValue.{Fields}
use meshtastic_matrix_relay.Alerts.{
  Key, queue, connection, battery, mesh_silence, channel_utilization, lora_tx_disabled, mqtt,
  Formats, Ledger, Monitor, rule_enabled, has_key, sent_at,
}
use meshtastic_matrix_relay.Alerts.Samples.{
  Sample, Probe, not_callable, raised, replied, at_queue, at_connection, at_connection_update,
  at_battery, at_silence, at_silence_update, at_utilization, at_lora, at_mqtt_update, queue_level,
  battery_level, utilization_level, connection_level, is_connected, metric_float, device_metrics,
  metrics_of_info, mqtt_connected,
}
use meshtastic_matrix_relay.Alerts.Checks.{
  queue_size, queue_threshold, queue_recovery, battery_threshold, battery_recovery,
  utilization_threshold, utilization_recovery, grace_until, silence_timeout, startup_grace,
  silent_for, is_fresh, negated,
}

-- Quiet, or alerting since an alert of which the time is known.
pub data Status : Type 0 where
  quiet : Status
  alerting : Option ℕ → Status

-- Nothing new, nothing to watch any more, or whether the condition holds at a time.
pub data Signal : Type 0 where
  keep : Signal
  drop : Signal
  level : Bool → ℕ → Signal

unfoldable pub status : Key → Ledger → Status
status k l = if has_key k l.active then alerting (sent_at k l.last_sent) else quiet

-- The alert of a condition that still holds is repeated when the cooldown is over.
unfoldable pub react : ℕ → Signal → Status → Status
react cooldown keep st = st
react cooldown drop st = quiet
react cooldown (level false now) st = quiet
react cooldown (level true now) quiet = alerting (some now)
react cooldown (level true now) (alerting none) = alerting (some now)
react cooldown (level true now) (alerting (some last)) =
    if leb (last + cooldown) now then alerting (some now) else alerting (some last)

unfoldable pub signal_of : Option Bool → ℕ → Signal
signal_of none now = keep
signal_of (some b) now = level b now

module _ (formats : Formats) where
  unfoldable pub queue_signal : Fields → Sample → Signal
  queue_signal settings s =
      if rule_enabled settings (codes "queue")
      then signal_of
          (queue_level (queue_threshold formats settings) (queue_recovery formats settings)
            (queue_size formats s))
          (s.clock at_queue)
      else keep

  unfoldable pub connection_signal : Fields → Sample → ℕ → Signal
  connection_signal settings s grace =
      if s.connection_suspended
      then drop
      else if rule_enabled settings (codes "connection")
      then signal_of (connection_level (is_connected s) (s.clock at_connection) grace)
          (s.clock at_connection_update)
      else keep

  -- A level above 100 percent is external power.
  unfoldable pub level_signal : Fields → Sample → Option ℤ → Signal
  level_signal settings s none = keep
  level_signal settings s (some z) =
      if ltb_ℤ (pos 100000) z
      then keep
      else signal_of
          (battery_level (battery_threshold formats settings) (battery_recovery formats settings) z)
          (s.clock at_battery)

  unfoldable pub info_signal : Fields → Sample → Option Fields → Signal
  info_signal settings s none = keep
  info_signal settings s (some info) =
      level_signal settings s (metric_float formats (device_metrics info) (codes "batteryLevel"))

  unfoldable pub battery_signal : Fields → Sample → Signal
  battery_signal settings s =
      if rule_enabled settings (codes "battery") then info_signal settings s s.info else keep

  unfoldable pub silence_signal : Fields → ℕ → Sample → Signal
  silence_signal settings started s =
      if rule_enabled settings (codes "mesh_silence")
      then if ltb (s.clock at_silence) (started + startup_grace formats settings)
        then keep
        else level (leb (silence_timeout formats settings) (silent_for formats s started))
            (s.clock at_silence_update)
      else keep

  unfoldable pub usage_signal : Fields → Sample → Option ℤ → Signal
  usage_signal settings s none = keep
  usage_signal settings s (some z) =
      signal_of
        (utilization_level (utilization_threshold formats settings)
          (utilization_recovery formats settings) z)
        (s.clock at_utilization)

  unfoldable pub utilization_signal : Fields → Sample → Signal
  utilization_signal settings s =
      if rule_enabled settings (codes "channel_utilization")
      then usage_signal settings s
          (metric_float formats (metrics_of_info s.info) (codes "channelUtilization"))
      else keep

  unfoldable pub enabled_signal : Sample → Option Bool → Signal
  enabled_signal s none = keep
  enabled_signal s (some enabled) = level (not enabled) (s.clock at_lora)

  unfoldable pub lora_signal : Fields → Sample → Signal
  lora_signal settings s =
      if rule_enabled settings (codes "lora_tx_disabled")
      then enabled_signal s s.tx_enabled
      else keep

  unfoldable pub probe_signal : Sample → Probe → Signal
  probe_signal s not_callable = keep
  probe_signal s raised = keep
  probe_signal s (replied answer) =
      signal_of (negated formats (mqtt_connected answer)) (s.clock at_mqtt_update)

  unfoldable pub mqtt_signal : Fields → Sample → ℕ → Signal
  mqtt_signal settings s last =
      if rule_enabled settings (codes "mqtt")
      then if s.mqtt_enabled
        then if is_fresh formats settings s last then keep else probe_signal s s.probe
        else drop
      else keep

  -- The signal of a key. While the node is not connected its keys are left alone, but the silence of
  -- the mesh is not watched.
  unfoldable pub signal : Key → Sample → Monitor → Signal
  unfolding queue_signal connection_signal battery_signal silence_signal utilization_signal
      lora_signal mqtt_signal info_signal level_signal usage_signal enabled_signal probe_signal
  signal queue s m = queue_signal m.settings s
  signal connection s m = connection_signal m.settings s (grace_until formats s m)
  signal battery s m = if is_connected s then battery_signal m.settings s else keep
  signal mesh_silence s m =
      if is_connected s then silence_signal m.settings m.started_at s else drop
  signal channel_utilization s m = if is_connected s then utilization_signal m.settings s else keep
  signal lora_tx_disabled s m = if is_connected s then lora_signal m.settings s else keep
  signal mqtt s m = if is_connected s then mqtt_signal m.settings s m.last_mqtt_probe else keep
