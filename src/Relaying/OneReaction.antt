-- ===== src/Relaying/OneReaction.antt =====
-- What a reaction asks of the queue.
use meshtastic_matrix_relay.Prelude.{◌≡◌, refl, sym, subst, true, some, List, [], ◌∷◌, ℤ, if_rule}
use meshtastic_matrix_relay.Text.{Text}
use meshtastic_matrix_relay.PyValue.{Value, Fields}
use meshtastic_matrix_relay.MessageMap.{is_filled}
use meshtastic_matrix_relay.Replies.Interactions.{get_interaction_settings}
use meshtastic_matrix_relay.Relaying.{Event, Facade, send_text_reaction, Request, Action, requests}
use meshtastic_matrix_relay.Relaying.Contents.{Content, is_reaction_to, read_content}
use meshtastic_matrix_relay.Relaying.Reactions.{reaction_target}
use meshtastic_matrix_relay.Relaying.Messages.{bridge, on_room_message}
use meshtastic_matrix_relay.Relaying.Cases.{requests-queued, P-on_room_message}
use meshtastic_matrix_relay.Relaying.SendCases.{P-relay_reaction}

-- A reaction is sent as one, with its emoji, for the message on the mesh that it is for, and where
-- reactions are on.
pub record IsReaction (f : Facade) (event : Event) (c : Content) (r : Request) : Type 0 where
  pub config : Fields
  pub target : ℤ
  pub configured : f.config ≡ some config
  pub turned_on : (get_interaction_settings (Value.dict config)).reactions ≡ true
  pub found : reaction_target f config event c ≡ some target
  pub sent : r.send ≡ send_text_reaction target
  pub emoji : r.payload ≡ c.reaction_emoji
  pub filled : is_filled c.reaction_emoji ≡ true

-- At most one request, which is a reaction.
abbrev pub AtMostOne : Facade → Event → Content → List Request → Type 0
AtMostOne f event c [] = Unit
AtMostOne f event c (r ∷ []) = IsReaction f event c r
AtMostOne f event c (r ∷ s ∷ rs) = ⊥

AtMostOne-bridge :
    (f : Facade) (config room : Fields) (room_id : Text) (event : Event) (c : Content)
    → f.config ≡ some config
    → c.is_reaction ≡ true
    → AtMostOne f event c (
        requests
          (bridge f config room room_id event (get_interaction_settings (Value.dict config)) c))
unfolding bridge requests
AtMostOne-bridge f config room room_id event c e reacts =
    if_rule Sent c.is_reaction
      (λ _.
        if_rule Sent (get_interaction_settings (Value.dict config)).reactions
          (λ on. subst (AtMostOne f event c) (sym (requests-queued _)) (
            P-relay_reaction (AtMostOne f event c) tt f config room room_id event true c
              (λ target channel found filled. record {
                config = config;
                target = target;
                configured = e;
                turned_on = on;
                found = found;
                sent = refl;
                emoji = refl;
                filled = filled;
              })))
          (λ _. tt))
      (λ other. absurd (cc (reacts, other)))
  where
    Sent : List Action → Type 0
    Sent actions = AtMostOne f event c (requests actions)

-- A reaction, or an emote that stands for one, makes at most one request: that its emoji is sent as
-- a reaction to the message on the mesh that it is for, and this only where reactions are on.
pub on_room_message-AtMostOne :
    (f : Facade) (room_id : Text) (event : Event)
    → is_reaction_to event.kind event ≡ true
    → AtMostOne f event
        (read_content f.strings.is_space event)
        (requests (on_room_message f room_id event))
unfolding read_content
on_room_message-AtMostOne f room_id event h =
    P-on_room_message (AtMostOne f event (read_content f.strings.is_space event)) tt f room_id event
      (λ config room e.
        AtMostOne-bridge f config room room_id event (read_content f.strings.is_space event) e h)
