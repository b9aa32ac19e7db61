-- ===== src/NodeIdentity/Tests.antt =====
-- The node identifier of the module's documentation, and the theorems at it.
use meshtastic_matrix_relay.Prelude.{◌≡◌, refl, pos, true, length, ◌++◌, arith}
use meshtastic_matrix_relay.Text.{Text, codes}
use meshtastic_matrix_relay.PyValue.{bool, int, str}
use meshtastic_matrix_relay.NodeIdentity.{hex_digit, hex, normalize_node_id}
use meshtastic_matrix_relay.NodeIdentity.Canonical.{
  hex_value, all_hex, normalize_node_id-reads_back,
}

documented : normalize_node_id (int (pos 4134515116)) ≡ str (codes "!f66fb1ac")
unfolding normalize_node_id hex hex_digit
documented = refl

too_large : normalize_node_id (int (pos 4294967296)) ≡ int (pos 4294967296)
unfolding normalize_node_id
too_large = refl

flag : normalize_node_id (bool true) ≡ bool true
unfolding normalize_node_id
flag = refl

normalize_node_id-reads_back_example :
    (digits : Text) × (normalize_node_id (int (pos 10)) ≡ str (codes "!" ++ digits))
    × (length digits ≡ 8)
    × (all_hex digits ≡ true)
    × (hex_value 0 digits ≡ 10)
normalize_node_id-reads_back_example = normalize_node_id-reads_back 10 (omega arith)
