-- ===== src/RoomAuthorization/FirstOf.antt =====
-- The first event of a kind in a room's state; what is no dict is passed over.
use meshtastic_matrix_relay.Prelude.{◌≡◌, Bool, true, false, none, some}
use meshtastic_matrix_relay.PyValue.{Value, dict, Items, cons, Fields, as_dict}

pub data FirstOf (kind : Fields → Bool) : Items → Fields → Type 0 where
  found :
      {event : Fields} {vs : Items} → kind event ≡ true → FirstOf kind (cons (dict event) vs) event
  later :
      {event other : Fields} {vs : Items}
      → kind other ≡ false
      → FirstOf kind vs event
      → FirstOf kind (cons (dict other) vs) event
  past :
      {event : Fields} {v : Value} {vs : Items}
      → as_dict (some v) ≡ none
      → FirstOf kind vs event
      → FirstOf kind (cons v vs) event
