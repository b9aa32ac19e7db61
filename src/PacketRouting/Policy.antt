-- ===== src/PacketRouting/Policy.antt =====
-- The routing policy that `classify_packet` implements.
use meshtastic_matrix_relay.Prelude.{
  ◌≡◌, ◌≢◌, ◌↔◌, Bool, true, false, ◌&&◌, ◌||◌, not, Option, none, [], ◌∷◌, arith, if◌then◌else◌,
}
use meshtastic_matrix_relay.Text.{Text, mem_text, codes, starts_with, strip}
use meshtastic_matrix_relay.Text.Laws.{mem_text-++, text_eq_iff}
use meshtastic_matrix_relay.PyValue.{
  Value, Items, nil, cons, null, bool, int, float, str, list, dict, Fields,
}
use meshtastic_matrix_relay.PacketRouting.{
  Names, PacketAction, relay, drop, is_encrypted_packet, detection_sensor_enabled, get_portnum_name,
  known, stripped_name, entry_names, resolve_entries, action_of, routing_value, chat_overrides,
  disabled_overrides, get_encrypted_action, is_detection_sensor, is_text_message, classify_packet,
}

abbrev is_drop : PacketAction → Bool
is_drop drop = true
is_drop _ = false

module _ (names : Names) where
  open names use {is_space}

  known-IsKnown :
      (t name : Text)
      → mem_text t (known names name) ≡ true
      → starts_with t (codes "UNKNOWN") ≡ false
  unfolding known mem_text
  known-IsKnown t name h = ground (arith, text_eq_iff t name)

  stripped_name-IsKnown :
      (t name : Text)
      → mem_text t (stripped_name names name) ≡ true
      → starts_with t (codes "UNKNOWN") ≡ false
  unfolding stripped_name mem_text
  stripped_name-IsKnown t [] h = ground arith
  stripped_name-IsKnown t (c ∷ name) h = known-IsKnown t (c ∷ name) h

  entry_names-IsKnown :
      (t : Text) (v : Value)
      → mem_text t (entry_names names v) ≡ true
      → starts_with t (codes "UNKNOWN") ≡ false
  unfolding entry_names mem_text
  entry_names-IsKnown t (str s) h = stripped_name-IsKnown t (strip is_space s) h
  entry_names-IsKnown t null h = known-IsKnown t (get_portnum_name names null none) h
  entry_names-IsKnown t (bool b) h = known-IsKnown t (get_portnum_name names (bool b) none) h
  entry_names-IsKnown t (int z) h = known-IsKnown t (get_portnum_name names (int z) none) h
  entry_names-IsKnown t (float z) h = known-IsKnown t (get_portnum_name names (float z) none) h
  entry_names-IsKnown t (list vs) h = known-IsKnown t (get_portnum_name names (list vs) none) h
  entry_names-IsKnown t (dict fs) h = known-IsKnown t (get_portnum_name names (dict fs) none) h

  -- A list of ports of the configuration never names an unknown port, whatever its entries are.
  resolve_entries-IsKnown :
      (t : Text) (vs : Items)
      → mem_text t (resolve_entries names vs) ≡ true
      → starts_with t (codes "UNKNOWN") ≡ false
  unfolding resolve_entries mem_text
  resolve_entries-IsKnown t nil h = ground arith
  resolve_entries-IsKnown t (cons v vs) h = ground (
    arith,
    mem_text-++ t (entry_names names v) (resolve_entries names vs),
    entry_names-IsKnown t v,
    resolve_entries-IsKnown t vs,
  )

  -- A packet that may be relayed: it is not encrypted, its name is not disabled, a detection sensor
  -- is enabled, and it is one of the three kinds.
  abbrev pub may_relay : Value → Option Fields → Option Fields → Bool
  may_relay portnum config packet =
      let name = get_portnum_name names portnum packet in
      not (is_encrypted_packet packet)
      && (not (mem_text name (disabled_overrides names config))
          && ((not (is_detection_sensor names portnum name) || detection_sensor_enabled config)
              && (mem_text name (chat_overrides names config)
                  || (is_detection_sensor names portnum name
                      || is_text_message names portnum name))))

  -- A packet that is dropped: encrypted under the policy `drop`, or plain with a disabled name.
  abbrev pub must_drop : Value → Option Fields → Option Fields → Bool
  must_drop portnum config packet =
      if is_encrypted_packet packet
      then is_drop (get_encrypted_action names config)
      else mem_text (get_portnum_name names portnum packet) (disabled_overrides names config)

  action_of-IsSilent : (v : Value) → action_of names v ≢ relay
  unfolding action_of
  action_of-IsSilent (str s) e = ground arith
  action_of-IsSilent _ e = ground arith

  -- The policy for encrypted packets never relays them, whatever the configuration holds.
  action_never_relays : (config : Option Fields) → get_encrypted_action names config ≢ relay
  unfolding get_encrypted_action
  action_never_relays config = action_of-IsSilent (routing_value config (codes "encrypted_action"))

  -- The classification is the policy: relay exactly what may be relayed, drop exactly what must be
  -- dropped, and leave the rest to the plugins.
  pub classify_packet_lem :
      (portnum : Value) (config packet : Option Fields)
      → ((classify_packet names portnum config packet ≡ relay)
          ↔ (may_relay portnum config packet ≡ true))
        × ((classify_packet names portnum config packet ≡ drop)
            ↔ (must_drop portnum config packet ≡ true))
  unfolding classify_packet
  classify_packet_lem portnum config packet = (
    ((λ h. ground (arith, action_never_relays config)), (λ h. ground arith)),
    ((λ h. ground arith), (λ h. ground arith)),
  )
