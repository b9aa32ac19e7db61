-- ===== src/NodeIdentity.antt =====
-- meshtastic/node_identity.py: the canonical form of a node identifier.
pub mod Canonical
mod Tests
use meshtastic_matrix_relay.Prelude.{
  ℕ, zero, suc, ◌+◌, ◌*◌, ◌/◌, ◌%◌, Bool, true, false, [], ◌∷◌, ◌++◌, ltb, leb, if◌then◌else◌, ℤ,
  pos, negsuc,
}
use meshtastic_matrix_relay.Text.{Text, codes}
use meshtastic_matrix_relay.PyValue.{Value, int, str}

-- `_MAX_NODE_NUM`
abbrev pub max_node_num : ℕ
max_node_num = 0xFFFFFFFF

-- The lowercase hexadecimal digit.
unfoldable pub hex_digit : ℕ → ℕ
hex_digit d = if ltb d 10 then 48 + d else 87 + d

-- `f"{n:0{width}x}"` for a number that has at most `width` digits.
unfoldable pub hex : ℕ → ℕ → Text
hex zero n = []
hex (suc width) n = hex width (n / 16) ++ hex_digit (n % 16) ∷ []

-- `normalize_node_id`
unfoldable pub normalize_node_id : Value → Value
normalize_node_id (int (pos n)) =
    if leb n max_node_num then str (codes "!" ++ hex 8 n) else int (pos n)
normalize_node_id v = v
