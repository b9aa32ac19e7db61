-- ===== src/RoomIds/Grammar.antt =====
-- The grammar of room IDs and aliases.
use meshtastic_matrix_relay.Prelude.{◌≡◌, ◌≢◌, Bool, true, false, [], ◌∷◌, ◌++◌}
use meshtastic_matrix_relay.Text.{Text}
use meshtastic_matrix_relay.RoomIds.{has, all, is_v12, valid_server_name}

module _ (is_ipv6 : Text → Bool) where
  -- An exclamation mark, a local part, and, in rooms before version 12, a server's name.
  pub data RoomId : Text → Type 0 where
    classic :
        (localpart domain : Text)
        → localpart ≢ []
        → has 58 localpart ≡ false
        → valid_server_name is_ipv6 domain ≡ true
        → RoomId (33 ∷ localpart ++ 58 ∷ domain)
    domainless :
        (localpart : Text) → localpart ≢ [] → all is_v12 localpart ≡ true → RoomId (33 ∷ localpart)

  -- A number sign, a local part, and always a server's name.
  pub data RoomAlias : Text → Type 0 where
    alias :
        (localpart domain : Text)
        → localpart ≢ []
        → has 58 localpart ≡ false
        → valid_server_name is_ipv6 domain ≡ true
        → RoomAlias (35 ∷ localpart ++ 58 ∷ domain)
