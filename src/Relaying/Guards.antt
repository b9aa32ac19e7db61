-- ===== src/Relaying/Guards.antt =====
-- Which events set off a request to the queue.
use meshtastic_matrix_relay.Prelude.{
  ◌≡◌, refl, ap, ◌∙◌, Bool, true, false, ◌&&◌, ◌||◌, not, Option, none, some, List, [], ◌∷◌,
  if◌then◌else◌, arith, Bool-cases, inl, inr,
}
use meshtastic_matrix_relay.Text.{Text, codes, strip}
use meshtastic_matrix_relay.PyValue.{Fields}
use meshtastic_matrix_relay.Relaying.{Event, Plugin, Facade, Action, requests}
use meshtastic_matrix_relay.Relaying.Rooms.{
  is_stale, is_bot, is_suppressed, room_config, ask_plugins, dispatch_unmapped_room_message,
  channel_writer_allowed, is_portal, asked_of, is_reaction_event, plugins_owning_room, first_text,
  text_at,
}
use meshtastic_matrix_relay.Relaying.Contents.{Content, read_content}
use meshtastic_matrix_relay.Relaying.Messages.{on_room_message, with_room, with_config, in_room}

abbrev has_room : Option Fields → Bool
has_room none = false
has_room (some room) = true

-- Who may write into a room with this configuration.
abbrev may_write : Option Fields → Event → Fields → Bool
may_write none event room = false
may_write (some config) event room =
    not (is_portal (codes "control") room)
    && (not (is_portal (codes "channel") room) || channel_writer_allowed event.sender config)

abbrev written_by : Option Fields → Event → Option Fields → Bool
written_by config event none = false
written_by config event (some room) = may_write config event room

-- An event that is fresh, not the bot's own, not marked as suppressed, and in a configured room that
-- relays and that its sender may write into.
unfoldable pub is_admitted : Facade → Text → Event → Bool
is_admitted f room_id event =
    (not (is_stale f event.server_timestamp) && not (is_bot f event))
    && (not (is_suppressed event) && written_by f.config event (room_config f.matrix_rooms room_id))

pub requests-ask_plugins :
    (body : Text) (plugins : List Plugin) → requests (ask_plugins body plugins).0 ≡ []
unfolding requests ask_plugins
requests-ask_plugins body [] = refl
requests-ask_plugins body (p ∷ plugins) = elim (Bool-cases (p.claims body)) [
  | inl y ↦ ground (arith, y, requests-ask_plugins body plugins)
  | inr n ↦ ground (arith, n, requests-ask_plugins body plugins)
]

requests-asked_of : (said : Text) (owners : List Plugin) → requests (asked_of said owners) ≡ []
unfolding requests
requests-asked_of [] owners = refl
requests-asked_of (c ∷ s) owners = requests-ask_plugins (c ∷ s) owners

pub requests-dispatch :
    (f : Facade) (room_id : Text) (event : Event)
    → requests (dispatch_unmapped_room_message f room_id event) ≡ []
unfolding dispatch_unmapped_room_message requests
requests-dispatch f room_id event = elim (Bool-cases (is_reaction_event event.kind)) [
  | inl y ↦ ap (λ b. requests (if b then [] else unless_suppressed)) y
  | inr n ↦ ap (λ b. requests (if b then [] else unless_suppressed)) n ∙ suppressing
]
  where
    owners : List Plugin
    owners = plugins_owning_room room_id f.plugins

    said : Text
    said = strip f.strings.is_space (first_text event.body (text_at event.content (codes "body")))

    unless_suppressed : List Action
    unless_suppressed = if is_suppressed event then [] else asked_of said owners

    suppressing : requests unless_suppressed ≡ []
    suppressing = elim (Bool-cases (is_suppressed event)) [
      | inl y ↦ ap (λ b. requests (if b then [] else asked_of said owners)) y
      | inr n ↦
          ap (λ b. requests (if b then [] else asked_of said owners)) n
          ∙ requests-asked_of said owners
    ]

requests-in_room :
    (f : Facade) (config room : Fields) (room_id : Text) (event : Event) (c : Content)
    → (not (is_suppressed event) && may_write (some config) event room) ≡ false
    → requests (in_room f config room room_id event c) ≡ []
unfolding in_room requests
requests-in_room f config room room_id event c h = ground arith

requests-with_config :
    (f : Facade) (config : Option Fields) (room : Fields) (room_id : Text) (event : Event)
    → (not (is_suppressed event) && may_write config event room) ≡ false
    → requests (with_config f config room room_id event) ≡ []
unfolding with_config requests
requests-with_config f none room room_id event h = refl
requests-with_config f (some config) room room_id event h =
    requests-in_room f config room room_id event (read_content f.strings.is_space event) h

requests-with_room :
    (f : Facade) (room : Option Fields) (room_id : Text) (event : Event)
    → (not (is_suppressed event) && written_by f.config event room) ≡ false
    → requests (with_room f room room_id event) ≡ []
unfolding with_room
requests-with_room f none room_id event h = requests-dispatch f room_id event
requests-with_room f (some room) room_id event h =
    requests-with_config f f.config room room_id event h

-- An event that is stale, the bot's own, suppressed, in no configured room, in a control room, or in
-- a channel's room that its sender may not write into, makes no request to the queue, whatever the
-- plugins, the message map and the queue answer.
pub on_room_message-requests :
    (f : Facade) (room_id : Text) (event : Event)
    → is_admitted f room_id event ≡ false
    → requests (on_room_message f room_id event) ≡ []
unfolding on_room_message is_admitted requests
on_room_message-requests f room_id event h =
    ground (arith, h, requests-with_room f (room_config f.matrix_rooms room_id) room_id event)
