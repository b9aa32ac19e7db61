-- ===== src/Relaying/Cases.antt =====
-- The ways through `on_room_message`, as far as the queue is concerned.
use meshtastic_matrix_relay.Prelude.{
  ℕ, ◌≡◌, refl, sym, ap, subst, ◌∙◌, Bool, true, false, ◌&&◌, ◌||◌, not, Option, none, some, List,
  [], ◌∷◌, ◌++◌, if_rule,
}
use meshtastic_matrix_relay.Text.{Text, codes, starts_with}
use meshtastic_matrix_relay.PyValue.{Value, Fields}
use meshtastic_matrix_relay.Replies.Interactions.{get_interaction_settings}
use meshtastic_matrix_relay.Relaying.{
  Event, Facade, Request, Action, asks, controls, refuses, queues, requests,
}
use meshtastic_matrix_relay.Relaying.Rooms.{
  is_stale, is_bot, is_suppressed, room_config, channel_writer_allowed, is_portal, ask_plugins,
  commands_allowed_in_portal_rooms,
}
use meshtastic_matrix_relay.Relaying.Contents.{Content, read_content}
use meshtastic_matrix_relay.Relaying.Messages.{
  queued, unless_claimed, is_prefix_id, any_matches, relay_text, offer, bridge, in_room,
  with_config, with_room, on_room_message,
}
use meshtastic_matrix_relay.Relaying.Guards.{requests-ask_plugins, requests-dispatch}

pub requests-queued : (rs : List Request) → requests (queued rs) ≡ rs
unfolding requests
requests-queued [] = refl
requests-queued (r ∷ rs) = ap (λ l. r ∷ l) (requests-queued rs)

pub requests-append :
    (before after : List Action) → requests (before ++ after) ≡ requests before ++ requests after
unfolding requests
requests-append [] after = refl
requests-append (asks name body ∷ before) after = requests-append before after
requests-append (controls ∷ before) after = requests-append before after
requests-append (refuses ∷ before) after = requests-append before after
requests-append (queues r ∷ before) after = ap (λ l. r ∷ l) (requests-append before after)

module _ (P : List Request → Type 0) (nothing : P []) where
  abbrev Holds : List Action → Type 0
  Holds actions = P (requests actions)

  P-unless_claimed :
      (b : Bool) (rs : List Request) → P rs → P (requests (unless_claimed b (queued rs)))
  unfolding requests
  P-unless_claimed true rs h = nothing
  P-unless_claimed false rs h = subst P (sym (requests-queued rs)) h

  -- What plugins are asked does not touch the queue, and what they claim is not sent.
  pub P-offer :
      (f : Facade) (config room : Fields) (room_id : Text) (event : Event) (storage : Bool)
      (texts : Text × Text) (n : ℕ)
      → P (relay_text f config room room_id event storage texts n)
      → P (requests (offer f config room room_id event storage texts n))
  unfolding offer requests
  P-offer f config room room_id event storage (message, full) n h =
      if_rule Holds (commands_allowed_in_portal_rooms config)
        (λ _.
          subst P
            (sym (
              requests-append asked.0 rest
              ∙ ap (λ l. l ++ requests rest) (requests-ask_plugins message f.plugins)))
            (P-unless_claimed (asked.1 || any_matches f.plugins) sent h))
        (λ _.
          if_rule Holds (starts_with message (codes "!") || is_prefix_id f.bot_user_id message)
            (λ _. nothing) (λ _. subst P (sym (requests-queued sent)) h))
    where
      sent : List Request
      sent = relay_text f config room room_id event storage (message, full) n

      asked : List Action × Bool
      asked = ask_plugins message f.plugins

      rest : List Action
      rest = unless_claimed (asked.1 || any_matches f.plugins) (queued sent)

  P-in_room :
      (f : Facade) (config room : Fields) (room_id : Text) (event : Event) (c : Content)
      → P (
          requests
            (bridge f config room room_id event (get_interaction_settings (Value.dict config)) c))
      → P (requests (in_room f config room room_id event c))
  unfolding in_room requests
  P-in_room f config room room_id event c h =
      if_rule Holds (is_suppressed event) (λ _. nothing)
        (λ _.
          if_rule Holds (is_portal (codes "control") room) (λ _. nothing)
            (λ _.
              if_rule Holds
                (is_portal (codes "channel") room
                  && not (channel_writer_allowed event.sender config))
                (λ _. if_rule Holds c.is_reaction (λ _. nothing) (λ _. nothing)) (λ _. h)))

  abbrev Bridged : Facade → Text → Event → Type 0
  Bridged f room_id event =
      (config room : Fields)
      → f.config ≡ some config
      → P (
          requests (
            bridge f config room room_id event (get_interaction_settings (Value.dict config))
              (read_content f.strings.is_space event)))

  P-with_config :
      (f : Facade) (config : Option Fields) (room : Fields) (room_id : Text) (event : Event)
      → f.config ≡ config
      → Bridged f room_id event
      → P (requests (with_config f config room room_id event))
  unfolding with_config requests
  P-with_config f none room room_id event e h = nothing
  P-with_config f (some config) room room_id event e h =
      P-in_room f config room room_id event (read_content f.strings.is_space event)
        (h config room e)

  P-with_room :
      (f : Facade) (room : Option Fields) (room_id : Text) (event : Event)
      → Bridged f room_id event
      → P (requests (with_room f room room_id event))
  unfolding with_room
  P-with_room f none room_id event h = subst P (sym (requests-dispatch f room_id event)) nothing
  P-with_room f (some room) room_id event h = P-with_config f f.config room room_id event refl h

  -- What holds of no requests, and of those of the event in each room of a configuration, holds of
  -- those that the event makes.
  pub P-on_room_message :
      (f : Facade) (room_id : Text) (event : Event)
      → Bridged f room_id event
      → P (requests (on_room_message f room_id event))
  unfolding on_room_message requests
  P-on_room_message f room_id event h =
      if_rule Holds (is_stale f event.server_timestamp) (λ _. nothing)
        (λ _.
          if_rule Holds (is_bot f event) (λ _. nothing)
            (λ _. P-with_room f (room_config f.matrix_rooms room_id) room_id event h))
