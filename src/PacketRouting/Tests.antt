-- ===== src/PacketRouting/Tests.antt =====
-- Tests of the packet classification, with some of the names that the Meshtastic library gives.
use meshtastic_matrix_relay.Prelude.{
  ◌≡◌, refl, ◌↔◌, true, Option, none, some, ◌==◌, if◌then◌else◌, ℤ, pos, negsuc,
}
use meshtastic_matrix_relay.Text.{Text, mem_text, codes, strip, text_eq, starts_with}
use meshtastic_matrix_relay.PyValue.{
  Items, int, str, list, dict, nil, cons, Fields, end, field, get,
}
use meshtastic_matrix_relay.PacketRouting.{
  resolve_entries, entry_names, Names, relay, plugin_only, drop, classify_packet,
  is_encrypted_packet, detection_sensor_enabled, get_encrypted_action, disabled_overrides,
  chat_overrides, is_detection_sensor, is_text_message, get_portnum_name,
}
use meshtastic_matrix_relay.PacketRouting.Policy.{may_relay, must_drop, classify_packet_lem}

abbrev port_name : ℤ → Option Text
port_name (pos n) =
    if n == 1
    then some (codes "TEXT_MESSAGE_APP")
    else if n == 10
    then some (codes "DETECTION_SENSOR_APP")
    else if n == 67
    then some (codes "TELEMETRY_APP")
    else none
port_name (negsuc n) = none

abbrev names : Names
names = record {
  port_name = port_name;
  show_int = λ z. codes "99";
  is_space = λ c. c == 32;
  lower = λ t. t;
}

abbrev config : Fields
config =
    field (codes "meshtastic")
      (dict (
        field (codes "packet_routing")
          (dict (
            field (codes "chat_portnums") (list (cons (int (pos 67)) nil)) (
              field (codes "disabled_portnums") (str (codes " DETECTION_SENSOR_APP"))
                (field (codes "encrypted_action") (str (codes "drop ")) end))))
          end))
      end

abbrev encrypted : Fields
encrypted = field (codes "encrypted") (str (codes "x")) end

text_goes_to_chat : classify_packet names (int (pos 1)) none none ≡ relay
unfolding classify_packet is_encrypted_packet detection_sensor_enabled get_encrypted_action
    disabled_overrides chat_overrides mem_text is_detection_sensor is_text_message get_portnum_name
    strip text_eq get starts_with
text_goes_to_chat = refl

override_goes_to_chat : classify_packet names (int (pos 67)) (some config) none ≡ relay
unfolding classify_packet is_encrypted_packet detection_sensor_enabled get_encrypted_action
    disabled_overrides chat_overrides mem_text is_detection_sensor is_text_message get_portnum_name
    strip text_eq get starts_with
override_goes_to_chat = refl

disabled_is_dropped : classify_packet names (int (pos 10)) (some config) none ≡ drop
unfolding classify_packet is_encrypted_packet detection_sensor_enabled get_encrypted_action
    disabled_overrides chat_overrides mem_text is_detection_sensor is_text_message get_portnum_name
    strip text_eq get starts_with
disabled_is_dropped = refl

unknown_goes_to_plugins : classify_packet names (int (pos 99)) (some config) none ≡ plugin_only
unfolding classify_packet is_encrypted_packet detection_sensor_enabled get_encrypted_action
    disabled_overrides chat_overrides mem_text is_detection_sensor is_text_message get_portnum_name
    strip text_eq get starts_with
unknown_goes_to_plugins = refl

encrypted_is_dropped : classify_packet names (int (pos 1)) (some config) (some encrypted) ≡ drop
unfolding classify_packet is_encrypted_packet detection_sensor_enabled get_encrypted_action
    disabled_overrides chat_overrides mem_text is_detection_sensor is_text_message get_portnum_name
    strip text_eq get starts_with
encrypted_is_dropped = refl

classify_packet_lem_example :
    ((classify_packet names (int (pos 67)) (some config) (some encrypted) ≡ relay)
      ↔ (may_relay names (int (pos 67)) (some config) (some encrypted) ≡ true))
    × ((classify_packet names (int (pos 67)) (some config) (some encrypted) ≡ drop)
        ↔ (must_drop names (int (pos 67)) (some config) (some encrypted) ≡ true))
classify_packet_lem_example =
    classify_packet_lem names (int (pos 67)) (some config) (some encrypted)

abbrev ports : Items
ports = cons (int (pos 99)) (cons (str (codes " TELEMETRY_APP")) nil)

names_telemetry : mem_text (codes "TELEMETRY_APP") (resolve_entries names ports) ≡ true
unfolding resolve_entries entry_names get_portnum_name mem_text strip text_eq starts_with
names_telemetry = refl
