-- ===== src/RoomAuthorization/Creators.antt =====
-- Who the creators of a room are: `_creators_from_state` against what a room's state says.
use meshtastic_matrix_relay.Prelude.{
  ◌≡◌, ◌≢◌, ◌↔◌, inl, inr, refl, subst, true, Option, some, [], ◌∷◌, ℤ, pos, ◌≤ℤ◌, sym, arith,
  Bool-cases, Option-cases,
}
use meshtastic_matrix_relay.Text.{Text, codes, mem_text}
use meshtastic_matrix_relay.Text.Laws.{text_eq_iff, mem_text-++}
use meshtastic_matrix_relay.PyValue.{Value, str, dict, Items, nil, cons, Fields, get, as_dict}
use meshtastic_matrix_relay.RoomAuthorization.{
  is_create, candidates, creator_name, creator_names, room_version, content_creators, creators_of,
  creators_from_state,
}
use meshtastic_matrix_relay.RoomAuthorization.FirstOf.{FirstOf, found, later, past}

-- `who` stands among the values.
pub data Listed (who : Text) : Items → Type 0 where
  top : {vs : Items} → Listed who (cons (str who) vs)
  below : {v : Value} {vs : Items} → Listed who vs → Listed who (cons v vs)

named_iff : (who t : Text) → (mem_text who (creator_name (str t)) ≡ true) ↔ ((who ≢ []) × (who ≡ t))
unfolding creator_name mem_text
named_iff who [] = ground arith
named_iff who (c ∷ t) = ground (arith, text_eq_iff who (c ∷ t))

creator_name-Listed :
    (who : Text) (v : Value) (vs : Items)
    → mem_text who (creator_name v) ≡ true
    → (who ≢ []) × Listed who (cons v vs)
unfolding creator_name mem_text
creator_name-Listed who (str t) vs h =
    let (solid, e) = (named_iff who t).0 h in
    (solid, subst (λ u. Listed who (cons (str u) vs)) e top)
creator_name-Listed who _ vs h = ground arith

creator_names-Listed :
    (who : Text) (vs : Items) → mem_text who (creator_names vs) ≡ true → (who ≢ []) × Listed who vs
unfolding creator_names mem_text
creator_names-Listed who nil h = ground arith
creator_names-Listed who (cons v vs) h = elim (Bool-cases (mem_text who (creator_name v))) [
  | inl e ↦ creator_name-Listed who v vs e
  | inr e ↦
      let (solid, at) =
        creator_names-Listed who vs
          (ground (arith, mem_text-++ who (creator_name v) (creator_names vs))) in
      (solid, below at)
]

Listed-creator_names :
    (who : Text) (vs : Items) → who ≢ [] → Listed who vs → mem_text who (creator_names vs) ≡ true
unfolding creator_names
Listed-creator_names who nil solid at = elim at [ ]
Listed-creator_names who (cons (str _) vs) solid top = ground (
  arith,
  mem_text-++ who (creator_name (str who)) (creator_names vs),
  (named_iff who who).1 (solid, refl),
)
Listed-creator_names who (cons v vs) solid (below at) = ground (
  arith,
  mem_text-++ who (creator_name v) (creator_names vs),
  Listed-creator_names who vs solid at,
)

module _ (parse : Text → Option ℤ) where
  -- What makes `who` a creator of the room: a create event of version 12 or later that `who` sent,
  -- or that lists `who` among the additional creators.
  abbrev pub Creates : Text → Fields → Type 0
  Creates who event =
      (content : Fields) × (as_dict (get event (codes "content")) ≡ some content)
      × (pos 12 ≤ℤ room_version parse content)
      × (who ≢ [])
      × Listed who (candidates event content)

  abbrev pub IsCreator : Text → Items → Type 0
  IsCreator who events = (event : Fields) × FirstOf is_create events event × Creates who event

  content_creators-Listed :
      (who : Text) (event content : Fields)
      → mem_text who (content_creators parse event (some content)) ≡ true
      → (pos 12 ≤ℤ room_version parse content) × (who ≢ []) × Listed who (candidates event content)
  unfolding content_creators mem_text
  content_creators-Listed who event content h =
      ground (arith, creator_names-Listed who (candidates event content))

  Listed-content_creators :
      (who : Text) (event content : Fields)
      → pos 12 ≤ℤ room_version parse content
      → mem_text who (creator_names (candidates event content)) ≡ true
      → mem_text who (content_creators parse event (some content)) ≡ true
  unfolding content_creators mem_text
  Listed-content_creators who event content young h = ground arith

  creators_of-Creates :
      (who : Text) (event : Fields)
      → mem_text who (creators_of parse event) ≡ true
      → Creates who event
  unfolding creators_of mem_text
  creators_of-Creates who event h = elim (Option-cases (as_dict (get event (codes "content")))) [
    | inl e ↦ absurd (ground (arith, e))
    | inr (content, e) ↦
        let (young, solid, at) =
          content_creators-Listed who event content
            (subst (λ o. mem_text who (content_creators parse event o) ≡ true) e h) in
        (content, e, young, solid, at)
  ]

  Creates-creators_of :
      (who : Text) (event : Fields)
      → Creates who event
      → mem_text who (creators_of parse event) ≡ true
  unfolding creators_of
  Creates-creators_of who event (content, e, young, solid, at) =
      subst (λ o. mem_text who (content_creators parse event o) ≡ true) (sym e)
        (Listed-content_creators who event content young
          (Listed-creator_names who (candidates event content) solid at))

  creators_from_state-IsCreator :
      (who : Text) (events : Items)
      → mem_text who (creators_from_state parse events) ≡ true
      → IsCreator who events
  unfolding creators_from_state mem_text
  creators_from_state-IsCreator who nil h = ground arith
  creators_from_state-IsCreator who (cons (dict event) vs) h = elim (Bool-cases (is_create event)) [
    | inl e ↦ (event, found e, creators_of-Creates who event (ground (arith, e)))
    | inr e ↦
        let (first, at, creates) = creators_from_state-IsCreator who vs (ground (arith, e)) in
        (first, later e at, creates)
  ]
  creators_from_state-IsCreator who (cons v vs) h =
      let (first, at, creates) = creators_from_state-IsCreator who vs h in
      (first, past refl at, creates)

  FirstOf-creators_from_state :
      {events : Items} {event : Fields}
      → FirstOf is_create events event
      → creators_from_state parse events ≡ creators_of parse event
  unfolding creators_from_state
  FirstOf-creators_from_state (found e) = rw e
  FirstOf-creators_from_state (later e at) = rw (e, FirstOf-creators_from_state at)
  FirstOf-creators_from_state (past {v = dict fs} e at) = ground (arith, e)
  FirstOf-creators_from_state (past e at) = FirstOf-creators_from_state at

  -- The creators that the code finds are exactly those of the first create event: its sender and
  -- the listed additional creators, in a room of version 12 or later, as far as they are non-empty
  -- strings.
  pub creators_from_state_lem :
      (who : Text) (events : Items)
      → (mem_text who (creators_from_state parse events) ≡ true) ↔ IsCreator who events
  creators_from_state_lem who events = (
    creators_from_state-IsCreator who events,
    λ (event, at, creates).
        subst (λ cs. mem_text who cs ≡ true) (sym (FirstOf-creators_from_state at))
          (Creates-creators_of who event creates),
  )
