-- ===== src/RoomAuthorization/Cache.antt =====
-- What the cache of creators keeps: `room_creators` and `is_authorized_in_room` share it.
use meshtastic_matrix_relay.Prelude.{
  ◌≡◌, ◌≢◌, ◌⊎◌, inl, inr, refl, Option, none, some, List, [], ℤ, arith, Option-cases,
}
use meshtastic_matrix_relay.Text.{Text}
use meshtastic_matrix_relay.Text.Laws.{text_eq_refl, text_eq_iff}
use meshtastic_matrix_relay.PyValue.{Items}
use meshtastic_matrix_relay.RoomAuthorization.Power.{answer_of}
use meshtastic_matrix_relay.RoomAuthorization.{
  Response, fetched, failed, Cache, lookup, store, creators_from_state, authorize,
  is_authorized_in_room, fetch_creators, known_creators, room_creators,
}

Response-cases : (r : Response) → (r ≡ failed) ⊎ ((events : Items) × (r ≡ fetched events))
Response-cases failed = inl refl
Response-cases (fetched events) = inr (events, refl)

lookup-store_self :
    (room_id : Text) (creators : List Text) (cache : Cache)
    → lookup (store room_id creators cache) room_id ≡ some creators
unfolding lookup
lookup-store_self room_id creators cache = ground (arith, text_eq_refl room_id)

lookup-store_ne :
    (room_id other : Text) (creators : List Text) (cache : Cache)
    → other ≢ room_id
    → lookup (store room_id creators cache) other ≡ lookup cache other
unfolding lookup
lookup-store_ne room_id other creators cache h = ground (arith, text_eq_iff room_id other)

module _ (parse : Text → Option ℤ) where
  -- An authorization that fetched the state refreshes the room's creators, whatever was cached: a
  -- later `room_creators` gives those of that state without a further fetch, and what is cached of
  -- other rooms stays.
  room_creators-is_authorized_in_room :
      (client : Text → Response) (later : Option (Text → Response)) (room_id other sender : Text)
      (min_level : ℤ) (cache : Cache) {events : Items}
      → client room_id ≡ fetched events
      → other ≢ room_id
      → (room_creators parse later room_id
            (is_authorized_in_room parse (some client) room_id sender min_level cache).1
          ≡ (
            creators_from_state parse events,
            (is_authorized_in_room parse (some client) room_id sender min_level cache).1,
          ))
        × (lookup (is_authorized_in_room parse (some client) room_id sender min_level cache).1 other
            ≡ lookup cache other)
  unfolding is_authorized_in_room authorize room_creators known_creators
  room_creators-is_authorized_in_room client later room_id other sender min_level cache {events} e
        h =
      (
        ground (arith, e, lookup-store_self room_id (creators_from_state parse events) cache),
        ground (arith, e, lookup-store_ne room_id other (creators_from_state parse events) cache h),
      )

  fetch_creators-again :
      (client later : Option (Text → Response)) (room_id : Text) (cache : Cache)
      → lookup cache room_id ≡ none
      → (room_creators parse later room_id (room_creators parse client room_id cache).1
          ≡ room_creators parse client room_id cache)
        ⊎ ((lookup cache room_id ≡ none)
            × (answer_of client room_id ≡ failed)
            × (room_creators parse client room_id cache ≡ ([], cache)))
  unfolding room_creators known_creators fetch_creators
  fetch_creators-again none later room_id cache e = inr (e, refl, ground (arith, e))
  fetch_creators-again (some client) later room_id cache e =
      elim (Response-cases (client room_id)) [
        | inl f ↦ inr (e, f, ground (arith, e, f))
        | inr (events, f) ↦ inl (
            ground
              (arith, e, f, lookup-store_self room_id (creators_from_state parse events) cache))
      ]

  -- A `room_creators` that finds the room cached or the state fetched settles the matter: a further
  -- call gives the same creators and cache, whatever its client answers. After a failed fetch the
  -- answer is that there is none, and nothing is cached.
  room_creators-again :
      (client later : Option (Text → Response)) (room_id : Text) (cache : Cache)
      → (room_creators parse later room_id (room_creators parse client room_id cache).1
          ≡ room_creators parse client room_id cache)
        ⊎ ((lookup cache room_id ≡ none)
            × (answer_of client room_id ≡ failed)
            × (room_creators parse client room_id cache ≡ ([], cache)))
  unfolding room_creators known_creators fetch_creators
  room_creators-again client later room_id cache = elim (Option-cases (lookup cache room_id)) [
    | inr (creators, e) ↦ inl (ground (arith, e))
    | inl e ↦ fetch_creators-again client later room_id cache e
  ]
