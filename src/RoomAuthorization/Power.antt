-- ===== src/RoomAuthorization/Power.antt =====
-- Who may run a command: `is_authorized_in_room` against what a room's fresh state says.
use meshtastic_matrix_relay.Prelude.{
  ◌≡◌, ◌↔◌, ◌⊎◌, inl, inr, refl, ◌≤ℤ◌, true, Option, none, some, ℤ, pos, arith, Bool-cases,
  Option-cases,
}
use meshtastic_matrix_relay.Text.{Text, codes, mem_text}
use meshtastic_matrix_relay.PyValue.{
  Value, int, str, dict, Items, nil, cons, Fields, end, get, or_default, as_dict,
}
use meshtastic_matrix_relay.RoomAuthorization.{
  Response, fetched, failed, Cache, is_power_levels, creators_from_state, level_grants, users_grant,
  content_grants, event_grants, state_grants, authorize, is_authorized_in_room,
}
use meshtastic_matrix_relay.RoomAuthorization.FirstOf.{FirstOf, found, later, past}
use meshtastic_matrix_relay.RoomAuthorization.Creators.{IsCreator, creators_from_state_lem}

-- No client gives no answer.
abbrev pub answer_of : Option (Text → Response) → Text → Response
answer_of none room_id = failed
answer_of (some client) room_id = client room_id

-- The sender's level, or the default one.
abbrev pub level_value : Text → Fields → Fields → Value
level_value sender content users =
    or_default (get users sender) (or_default (get content (codes "users_default")) (int (pos 0)))

module _ (parse : Text → Option ℤ) where
  -- A level is an integer, or a string that reads as one.
  pub data Level : Value → ℤ → Type 0 where
    number : {z : ℤ} → Level (int z) z
    numeral : {s : Text} {z : ℤ} → parse s ≡ some z → Level (str s) z

  -- The level that the power-levels event gives the sender.
  abbrev pub Grants : Text → ℤ → Fields → Type 0
  Grants sender min_level event =
      (content : Fields) × (users : Fields) × (level : ℤ) × (as_dict (get event (codes "content"))
        ≡ some content)
      × (as_dict (some (or_default (get content (codes "users")) (dict end))) ≡ some users)
      × Level (level_value sender content users) level
      × (min_level ≤ℤ level)

  abbrev pub HasPower : Text → ℤ → Items → Type 0
  HasPower sender min_level events =
      (event : Fields) × FirstOf is_power_levels events event × Grants sender min_level event

  level_grants-Level :
      (min_level : ℤ) (v : Value)
      → level_grants parse min_level v ≡ true
      → (level : ℤ) × Level v level × (min_level ≤ℤ level)
  unfolding level_grants
  level_grants-Level min_level (int z) h = (z, number, ground arith)
  level_grants-Level min_level (str s) h = elim (Option-cases (parse s)) [
    | inl e ↦ absurd (ground (arith, e))
    | inr (z, e) ↦ (z, numeral e, ground (arith, e))
  ]
  level_grants-Level min_level _ h = absurd (ground arith)

  Level-level_grants :
      (min_level : ℤ) {v : Value} {level : ℤ}
      → Level v level
      → min_level ≤ℤ level
      → level_grants parse min_level v ≡ true
  unfolding level_grants
  Level-level_grants min_level number h = ground arith
  Level-level_grants min_level (numeral e) h = ground (arith, e)

  event_grants-Grants :
      (sender : Text) (min_level : ℤ) (event : Fields)
      → event_grants parse sender min_level event ≡ true
      → Grants sender min_level event
  unfolding event_grants content_grants users_grant
  event_grants-Grants sender min_level event h =
      elim (Option-cases (as_dict (get event (codes "content")))) [
        | inl e ↦ absurd (ground (arith, e))
        | inr (content, e) ↦
            elim (Option-cases
              (as_dict (some (or_default (get content (codes "users")) (dict end))))) [
                | inl d ↦ absurd (ground (arith, e, d))
                | inr (users, d) ↦
                    let (level, l, high) =
                      level_grants-Level min_level (level_value sender content users)
                        (ground (arith, e, d)) in
                    (content, users, level, e, d, l, high)
              ]
      ]

  Grants-event_grants :
      (sender : Text) (min_level : ℤ) (event : Fields)
      → Grants sender min_level event
      → event_grants parse sender min_level event ≡ true
  unfolding event_grants content_grants users_grant
  Grants-event_grants sender min_level event (content, users, level, e, d, l, high) =
      ground (arith, e, d, Level-level_grants min_level l high)

  state_grants-HasPower :
      (sender : Text) (min_level : ℤ) (events : Items)
      → state_grants parse sender min_level events ≡ true
      → HasPower sender min_level events
  unfolding state_grants
  state_grants-HasPower sender min_level nil h = absurd (ground arith)
  state_grants-HasPower sender min_level (cons (dict event) vs) h =
      elim (Bool-cases (is_power_levels event)) [
        | inl e ↦ (event, found e, event_grants-Grants sender min_level event (ground (arith, e)))
        | inr e ↦
            let (first, at, grants) =
              state_grants-HasPower sender min_level vs (ground (arith, e)) in
            (first, later e at, grants)
      ]
  state_grants-HasPower sender min_level (cons v vs) h =
      let (first, at, grants) = state_grants-HasPower sender min_level vs h in
      (first, past refl at, grants)

  FirstOf-state_grants :
      (sender : Text) (min_level : ℤ) {events : Items} {event : Fields}
      → FirstOf is_power_levels events event
      → state_grants parse sender min_level events ≡ event_grants parse sender min_level event
  unfolding state_grants
  FirstOf-state_grants sender min_level (found e) = ground (arith, e)
  FirstOf-state_grants sender min_level (later e at) =
      ground (arith, e, FirstOf-state_grants sender min_level at)
  FirstOf-state_grants sender min_level (past {v = dict fs} e at) = ground (arith, e)
  FirstOf-state_grants sender min_level (past e at) = FirstOf-state_grants sender min_level at

  HasPower-state_grants :
      (sender : Text) (min_level : ℤ) (events : Items)
      → HasPower sender min_level events
      → state_grants parse sender min_level events ≡ true
  HasPower-state_grants sender min_level events (event, at, grants) = ground (
    arith,
    FirstOf-state_grants sender min_level at,
    Grants-event_grants sender min_level event grants,
  )

  -- The room's state speaks for the sender.
  abbrev pub Entitled : Text → ℤ → Response → Type 0
  Entitled sender min_level response =
      (events : Items) × (response ≡ fetched events)
      × (IsCreator parse sender events ⊎ HasPower sender min_level events)

  authorize-Entitled :
      (room_id sender : Text) (min_level : ℤ) (cache : Cache) (response : Response)
      → (authorize parse room_id sender min_level cache response).0 ≡ true
      → Entitled sender min_level response
  unfolding authorize
  authorize-Entitled room_id sender min_level cache failed h = absurd (ground arith)
  authorize-Entitled room_id sender min_level cache (fetched events) h =
      elim (Bool-cases (mem_text sender (creators_from_state parse events))) [
        | inl e ↦ (events, refl, inl ((creators_from_state_lem parse sender events).0 e))
        | inr e ↦
            (events, refl, inr (state_grants-HasPower sender min_level events (ground (arith, e))))
      ]

  Entitled-authorize :
      (room_id sender : Text) (min_level : ℤ) (cache : Cache) (response : Response)
      → Entitled sender min_level response
      → (authorize parse room_id sender min_level cache response).0 ≡ true
  unfolding authorize
  Entitled-authorize room_id sender min_level cache response (events, e, inl creator) =
      ground (arith, e, (creators_from_state_lem parse sender events).1 creator)
  Entitled-authorize room_id sender min_level cache response (events, e, inr power) =
      ground (arith, e, HasPower-state_grants sender min_level events power)

  -- Whatever is cached, a sender is authorized exactly if there is a client, the room's state could
  -- be fetched, and it makes the sender a creator or gives the sender a level of at least
  -- `min_level`, in the first power-levels event; everything else is refused.
  pub is_authorized_in_room_lem :
      (client : Option (Text → Response)) (room_id sender : Text) (min_level : ℤ) (cache : Cache)
      → ((is_authorized_in_room parse client room_id sender min_level cache).0 ≡ true)
        ↔ Entitled sender min_level (answer_of client room_id)
  unfolding is_authorized_in_room
  is_authorized_in_room_lem none room_id sender min_level cache =
      ((λ h. absurd (ground arith)), (λ (events, e, why). absurd (ground (arith, e))))
  is_authorized_in_room_lem (some client) room_id sender min_level cache = (
    authorize-Entitled room_id sender min_level cache (client room_id),
    Entitled-authorize room_id sender min_level cache (client room_id),
  )
