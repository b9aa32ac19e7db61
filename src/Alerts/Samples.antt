-- ===== src/Alerts/Samples.antt =====
-- What a check of matrix/alerts.py reads of the runtime, the clock at each reading included, and the
-- conditions that it reads there; the search for the node's own record, `_local_node_info`, is left
-- out.
use meshtastic_matrix_relay.Prelude.{
  ℕ, ℤ, pos, Bool, true, false, ◌&&◌, ◌||◌, not, Option, none, some, List, [], ◌∷◌, ◌++◌, leb, ltb,
  leb_ℤ, if◌then◌else◌,
}
use meshtastic_matrix_relay.Text.{Text, codes, text_eq, strip}
use meshtastic_matrix_relay.PyValue.{
  Value, Fields, null, str, end, get, or_default, as_dict, truthy, float_of,
}
use meshtastic_matrix_relay.Alerts.{Formats}

-- What a network of the connection status says of MQTT.
pub data Network : Type 0 where
  absent : Network
  no_status : Network
  connected : Bool → Network

-- `requestDeviceConnectionStatus`: none to call, an exception, or its answer.
pub data Probe : Type 0 where
  not_callable : Probe
  raised : Probe
  replied : Option (List Network) → Probe

-- The readings of the clock.
pub data Read : Type 0 where
  at_queue : Read
  at_connection : Read
  at_connection_update : Read
  at_battery : Read
  at_silence : Read
  at_silence_update : Read
  at_utilization : Read
  at_lora : Read
  at_mqtt : Read
  at_mqtt_update : Read

pub record Sample : Type 0 where
  pub config : Fields
  pub clock : Read → ℕ
  pub queue_status : Fields
  pub connection_suspended : Bool
  pub has_client : Bool
  pub reconnecting : Bool
  pub last_packet : Option ℕ
  pub info : Option Fields
  pub node_num : Value
  pub tx_enabled : Option Bool
  pub mqtt_enabled : Bool
  pub probe : Probe

-- `values` of `_mqtt_connected`.
abbrev pub answers : List Network → List Bool
answers [] = []
answers (absent ∷ ns) = answers ns
answers (no_status ∷ ns) = answers ns
answers (connected b ∷ ns) = b ∷ answers ns

abbrev pub any_answer : List Bool → Bool
any_answer [] = false
any_answer (b ∷ bs) = b || any_answer bs

abbrev pub known_answer : List Bool → Option Bool
known_answer [] = none
known_answer (b ∷ bs) = some (any_answer (b ∷ bs))

-- `_mqtt_connected`
unfoldable pub mqtt_connected : Option (List Network) → Option Bool
mqtt_connected none = none
mqtt_connected (some networks) = known_answer (answers networks)

-- Up at the threshold, down at the recovery, and nothing in between.
unfoldable pub queue_level : ℕ → ℕ → ℕ → Option Bool
queue_level threshold recovery size =
    if leb threshold size then some true else if leb size recovery then some false else none

unfoldable pub battery_level : ℕ → ℕ → ℤ → Option Bool
battery_level threshold recovery level =
    if leb_ℤ level (pos threshold)
    then some true
    else if leb_ℤ (pos recovery) level
    then some false
    else none

unfoldable pub utilization_level : ℕ → ℕ → ℤ → Option Bool
utilization_level threshold recovery level =
    if leb_ℤ (pos threshold) level
    then some true
    else if leb_ℤ level (pos recovery)
    then some false
    else none

unfoldable pub connection_level : Bool → ℕ → ℕ → Option Bool
connection_level is_up now grace_until =
    if not is_up && ltb now grace_until then none else some (not is_up)

unfoldable pub is_connected : Sample → Bool
is_connected s = not s.connection_suspended && (s.has_client && not s.reconnecting)

abbrev pub device_metrics : Fields → Fields
device_metrics info = metrics_of (as_dict (get info (codes "deviceMetrics")))
  where
    metrics_of : Option Fields → Fields
    metrics_of (some metrics) = metrics
    metrics_of none = end

abbrev pub metrics_of_info : Option Fields → Fields
metrics_of_info none = end
metrics_of_info (some info) = device_metrics info

abbrev pub or_else : Value → Value → Value
or_else v w = if truthy v then v else w

abbrev pub or_start : ℕ → Option ℕ → ℕ
or_start started none = started
or_start started (some last) = last

abbrev pub is_empty : List Text → Bool
is_empty [] = true
is_empty (r ∷ rs) = false

module _ (formats : Formats) where
  open formats use {is_space, show, parse_float, decimal, fixed, minutes}

  -- `_metric_float`
  unfoldable pub metric_float : Fields → Text → Option ℤ
  metric_float metrics key = float_of parse_float (or_default (get metrics key) null)

  abbrev name_text : Option Value → Text
  name_text v = strip is_space (show (or_else (or_default v null) (str [])))

  abbrev joined_names : Text → Text → Value → Text
  joined_names [] [] node_id = show node_id
  joined_names [] (c ∷ long) node_id = c ∷ long
  joined_names (c ∷ short) [] node_id = c ∷ short
  joined_names (c ∷ short) (d ∷ long) node_id =
      if text_eq (c ∷ short) (d ∷ long) then c ∷ short else (c ∷ short) ++ (codes " " ++ (d ∷ long))

  -- `_node_label`
  unfoldable pub node_label : Value → Fields → Text
  node_label node_id info = label_of (as_dict (get info (codes "user")))
    where
      label_of : Option Fields → Text
      label_of none = show node_id
      label_of (some user) =
          joined_names (name_text (get user (codes "shortName")))
            (name_text (get user (codes "longName"))) node_id
