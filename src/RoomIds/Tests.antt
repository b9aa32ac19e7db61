-- ===== src/RoomIds/Tests.antt =====
-- Room identifiers of the module's documentation, and the theorems at them.
use meshtastic_matrix_relay.Prelude.{ℕ, ◌≡◌, refl, Bool, true, false, ◌==◌}
use meshtastic_matrix_relay.Text.{Text, codes, utf8_len, char_len, text_eq}
use meshtastic_matrix_relay.PyValue.{str}
use meshtastic_matrix_relay.RoomIds.{
  partition, has, split, label_rest, domain_label, valid_port, valid_length, valid_server_name,
  id_parts, alias_parts, is_room_id, is_room_alias,
}

abbrev is_space : ℕ → Bool
is_space c = c == 32

-- One IPv6 literal.
abbrev is_ipv6 : Text → Bool
is_ipv6 s = text_eq s (codes "::1")

abbrev id_holds : Text → Bool
id_holds s = is_room_id is_space is_ipv6 (str s)

classic_id : id_holds (codes "!room:example.org:8448") ≡ true
unfolding is_room_id id_parts partition has split label_rest domain_label valid_port valid_length
    utf8_len char_len valid_server_name
classic_id = refl

literal_id : id_holds (codes "!room:[::1]:80") ≡ true
unfolding is_room_id id_parts partition has split label_rest domain_label valid_port valid_length
    utf8_len char_len valid_server_name text_eq
literal_id = refl

domainless_id : id_holds (codes "!31hne-xA") ≡ true
unfolding is_room_id id_parts partition valid_length utf8_len char_len
domainless_id = refl

no_domain_after_colon : id_holds (codes "!room:") ≡ false
unfolding is_room_id id_parts partition valid_length utf8_len char_len valid_server_name
no_domain_after_colon = refl

alias_needs_server : is_room_alias is_space is_ipv6 (str (codes "#room")) ≡ false
unfolding is_room_alias alias_parts partition
alias_needs_server = refl
