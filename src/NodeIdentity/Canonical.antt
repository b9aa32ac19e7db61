-- ===== src/NodeIdentity/Canonical.antt =====
-- The canonical form names one node: it reads back as the node's number.
use meshtastic_matrix_relay.Prelude.{
  ℕ, zero, suc, ◌+◌, ◌-◌, ◌*◌, ◌/◌, ◌%◌, ◌^◌, ◌≤◌, ◌<◌, ◌≡◌, refl, Bool, true, ◌&&◌, ◌||◌, [], ◌∷◌,
  ◌++◌, ltb, leb, if◌then◌else◌, pos, arith, length, length-append,
}
use meshtastic_matrix_relay.Text.{Text, codes}
use meshtastic_matrix_relay.PyValue.{Value, int, str}
use meshtastic_matrix_relay.NodeIdentity.{max_node_num, hex_digit, hex, normalize_node_id}

abbrev pub digit_value : ℕ → ℕ
digit_value c = if ltb c 58 then c - 48 else c - 87

-- What a text of hexadecimal digits says, read from the left.
abbrev pub hex_value : ℕ → Text → ℕ
hex_value n [] = n
hex_value n (c ∷ s) = hex_value (n * 16 + digit_value c) s

-- The characters 0 to 9 and a to f.
abbrev pub is_hex : ℕ → Bool
is_hex c = (leb 48 c && leb c 57) || (leb 97 c && leb c 102)

abbrev pub all_hex : Text → Bool
all_hex [] = true
all_hex (c ∷ s) = is_hex c && all_hex s

hex_value-append :
    (n : ℕ) (s : Text) (c : ℕ) → hex_value n (s ++ c ∷ []) ≡ hex_value n s * 16 + digit_value c
hex_value-append n [] c = refl
hex_value-append n (d ∷ s) c = hex_value-append (n * 16 + digit_value d) s c

all_hex-append : (s : Text) (c : ℕ) → all_hex (s ++ c ∷ []) ≡ (all_hex s && is_hex c)
all_hex-append [] c = ground arith
all_hex-append (d ∷ s) c = ground (arith, all_hex-append s c)

digit_value-hex_digit : (d : ℕ) → d < 16 → digit_value (hex_digit d) ≡ d
unfolding hex_digit
digit_value-hex_digit d h = ground arith

is_hex-hex_digit : (d : ℕ) → d < 16 → is_hex (hex_digit d) ≡ true
unfolding hex_digit
is_hex-hex_digit d h = ground arith

length-hex : (width n : ℕ) → length (hex width n) ≡ width
unfolding hex
length-hex zero n = refl
length-hex (suc width) n =
    omega (
      arith,
      length-hex width (n / 16),
      length-append (hex width (n / 16)) (hex_digit (n % 16) ∷ []),
    )

hex_value-hex : (width n : ℕ) → n < 16 ^ width → hex_value 0 (hex width n) ≡ n
unfolding hex
hex_value-hex zero n h = omega arith
hex_value-hex (suc width) n h = omega (
  arith,
  hex_value-append 0 (hex width (n / 16)) (hex_digit (n % 16)),
  hex_value-hex width (n / 16) (omega arith),
  digit_value-hex_digit (n % 16) (omega arith),
)

all_hex-hex : (width n : ℕ) → all_hex (hex width n) ≡ true
unfolding hex
all_hex-hex zero n = refl
all_hex-hex (suc width) n = ground (
  arith,
  all_hex-append (hex width (n / 16)) (hex_digit (n % 16)),
  all_hex-hex width (n / 16),
  is_hex-hex_digit (n % 16) (omega arith),
)

-- A node number becomes `!` with eight lowercase hexadecimal digits that read as the number.
pub normalize_node_id-reads_back :
    (n : ℕ)
    → n ≤ max_node_num
    → (digits : Text) × (normalize_node_id (int (pos n)) ≡ str (codes "!" ++ digits))
      × (length digits ≡ 8)
      × (all_hex digits ≡ true)
      × (hex_value 0 digits ≡ n)
unfolding normalize_node_id
normalize_node_id-reads_back n h =
    (hex 8 n, ground arith, length-hex 8 n, all_hex-hex 8 n, hex_value-hex 8 n (omega arith))

normalize_number-again :
    (n : ℕ) → normalize_node_id (normalize_node_id (int (pos n))) ≡ normalize_node_id (int (pos n))
unfolding normalize_node_id
normalize_number-again n = ground arith

-- Whatever the value, a second normalization changes nothing.
normalize_node_id-again :
    (v : Value) → normalize_node_id (normalize_node_id v) ≡ normalize_node_id v
unfolding normalize_node_id
normalize_node_id-again (int (pos n)) = normalize_number-again n
normalize_node_id-again _ = refl
