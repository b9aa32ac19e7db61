-- ===== src/PacketRouting.antt =====
-- meshtastic/packet_routing.py: which packets go to the rooms, to the plugins only, or nowhere.
-- The names of port numbers (`PortNum.Name` of the Meshtastic library; `none` is its ValueError),
-- the decimal print of an integer, `str.isspace` and `str.lower` are the record `Names`. The log
-- lines, and the set that keeps a warning from being logged twice, are left out.
pub mod Policy
mod Tests
use meshtastic_matrix_relay.Prelude.{
  ℕ, ◌*◌, Bool, true, false, ◌&&◌, ◌||◌, not, Option, none, some, List, [], ◌∷◌, ◌++◌, ◌==◌,
  if◌then◌else◌, ℤ, pos,
}
use meshtastic_matrix_relay.Text.{Text, codes, mem_text, text_eq, starts_with, strip}
use meshtastic_matrix_relay.PyValue.{
  Value, null, bool, int, float, str, list, dict, Items, nil, cons, Fields, get, get_in, or_default,
  as_dict, text_is, truthy,
}

pub record Names : Type 0 where
  pub port_name : ℤ → Option Text
  pub show_int : ℤ → Text
  pub is_space : ℕ → Bool
  pub lower : Text → Text

pub data PacketAction : Type 0 where
  relay plugin_only drop : PacketAction

abbrev pub text_message_app : Text
text_message_app = codes "TEXT_MESSAGE_APP"

abbrev pub detection_sensor_app : Text
detection_sensor_app = codes "DETECTION_SENSOR_APP"

-- `v == n`: in Python `True == 1` and `1.0 == 1`.
num_is : ℕ → Value → Bool
num_is n (bool true) = n == 1
num_is n (bool false) = n == 0
num_is n (int (pos k)) = k == n
num_is n (float (pos k)) = k == n * 1000
num_is n _ = false

abbrev type_name : Value → Text
type_name null = codes "NoneType"
type_name (bool b) = codes "bool"
type_name (int z) = codes "int"
type_name (float z) = codes "float"
type_name (str s) = codes "str"
type_name (list vs) = codes "list"
type_name (dict fs) = codes "dict"

-- `_is_encrypted_packet`
unfoldable pub is_encrypted_packet : Option Fields → Bool
is_encrypted_packet packet = truthy (or_default (get_in packet (codes "encrypted")) null)

routing_value : Option Fields → Text → Value
routing_value config key =
    or_default
      (get_in
        (as_dict (get_in (as_dict (get_in config (codes "meshtastic"))) (codes "packet_routing")))
        key)
      null

-- `get_meshtastic_config_value(config, "detection_sensor", True)`, as a truth value.
unfoldable pub detection_sensor_enabled : Option Fields → Bool
detection_sensor_enabled config = truthy (
    or_default (get_in (as_dict (get_in config (codes "meshtastic"))) (codes "detection_sensor"))
      (bool true))

module _ (names : Names) where
  open names use {port_name, show_int, is_space, lower}

  known_or : Option Text → Text → Text
  known_or (some (c ∷ t)) unknown = c ∷ t
  known_or _ unknown = unknown

  -- `_get_portnum_name`
  unfoldable pub get_portnum_name : Value → Option Fields → Text
  unfolding is_encrypted_packet known_or
  get_portnum_name null packet =
      if is_encrypted_packet packet then codes "ENCRYPTED" else codes "UNKNOWN (None)"
  get_portnum_name (str []) packet = codes "UNKNOWN (empty string)"
  get_portnum_name (str (c ∷ t)) packet = c ∷ t
  get_portnum_name (int z) packet =
      known_or (port_name z) (codes "UNKNOWN (portnum=" ++ (show_int z ++ codes ")"))
  get_portnum_name v packet = codes "UNKNOWN (type=" ++ (type_name v ++ codes ")")

  known : Text → List Text
  known name = if starts_with name (codes "UNKNOWN") then [] else name ∷ []

  stripped_name : Text → List Text
  unfolding known
  stripped_name [] = []
  stripped_name (c ∷ t) = known (c ∷ t)

  -- One entry of a list of ports.
  unfoldable pub entry_names : Value → List Text
  unfolding stripped_name get_portnum_name
  entry_names (str s) = stripped_name (strip is_space s)
  entry_names v = known (get_portnum_name v none)

  unfoldable pub resolve_entries : Items → List Text
  unfolding entry_names
  resolve_entries nil = []
  resolve_entries (cons v vs) = entry_names v ++ resolve_entries vs

  one_or_none : Text → List Text
  one_or_none [] = []
  one_or_none (c ∷ t) = (c ∷ t) ∷ []

  -- `_resolve_portnum_set`
  unfoldable pub resolve_portnum_set : Value → List Text
  unfolding one_or_none resolve_entries
  resolve_portnum_set (str s) = one_or_none (strip is_space s)
  resolve_portnum_set (list vs) = resolve_entries vs
  resolve_portnum_set _ = []

  unfoldable pub chat_overrides : Option Fields → List Text
  unfolding resolve_portnum_set routing_value
  chat_overrides config = resolve_portnum_set (routing_value config (codes "chat_portnums"))

  unfoldable pub disabled_overrides : Option Fields → List Text
  unfolding resolve_portnum_set routing_value
  disabled_overrides config = resolve_portnum_set (routing_value config (codes "disabled_portnums"))

  action_named : Text → PacketAction
  action_named t = if text_eq t (codes "drop") then drop else plugin_only

  action_of : Value → PacketAction
  unfolding action_named
  action_of (str s) = action_named (lower (strip is_space s))
  action_of _ = plugin_only

  -- `_get_encrypted_action`: the default is also what an invalid value stands for.
  unfoldable pub get_encrypted_action : Option Fields → PacketAction
  unfolding action_of routing_value
  get_encrypted_action config = action_of (routing_value config (codes "encrypted_action"))

  unfoldable pub is_detection_sensor : Value → Text → Bool
  unfolding num_is
  is_detection_sensor portnum name =
      (num_is 10 portnum || text_is detection_sensor_app portnum)
      || text_eq name detection_sensor_app

  unfoldable pub is_text_message : Value → Text → Bool
  unfolding num_is
  is_text_message portnum name =
      (num_is 1 portnum || text_is text_message_app portnum) || text_eq name text_message_app

  -- From the name on, for a packet that is not encrypted.
  unfoldable pub classify_named : Value → Text → Option Fields → PacketAction
  classify_named portnum name config =
      if mem_text name (disabled_overrides config)
      then drop
      else if mem_text name (chat_overrides config)
      then (if is_detection_sensor portnum name && not (detection_sensor_enabled config)
          then plugin_only
          else relay)
      else if is_detection_sensor portnum name
      then (if detection_sensor_enabled config then relay else plugin_only)
      else if is_text_message portnum name
      then relay
      else plugin_only

  unfoldable pub classify_packet : Value → Option Fields → Option Fields → PacketAction
  unfolding classify_named
  classify_packet portnum config packet =
      if is_encrypted_packet packet
      then get_encrypted_action config
      else classify_named portnum (get_portnum_name portnum packet) config
