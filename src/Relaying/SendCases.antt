-- ===== src/Relaying/SendCases.antt =====
-- The ways to a request: what is asked of the queue for a message and for a reply.
use meshtastic_matrix_relay.Prelude.{
  ℕ, zero, ◌≡◌, refl, Bool, true, false, ◌&&◌, Option, none, some, List, [], ◌∷◌, ◌++◌, if_rule, ℤ,
  Option-cases, inl, inr,
}
use meshtastic_matrix_relay.Text.{Text, codes, text_eq}
use meshtastic_matrix_relay.PyValue.{Fields, str, get, or_default, null}
use meshtastic_matrix_relay.PacketRouting.{detection_sensor_enabled}
use meshtastic_matrix_relay.MessageMap.{Row, get_by_event, is_filled}
use meshtastic_matrix_relay.Replies.{sendable, get_meshtastic_prefix}
use meshtastic_matrix_relay.Relaying.{Event, Facade, Sender, send_text, Request, requests}
use meshtastic_matrix_relay.Relaying.Contents.{
  Content, is_detection_port, parse_meshtastic_reply_id,
}
use meshtastic_matrix_relay.Relaying.Sending.{
  interface_and_channel, broadcast_enabled, planned, queue_all,
}
use meshtastic_matrix_relay.Relaying.Reactions.{
  local_meshnet_name, planned_or_false, reaction_target, reaction_request, with_channel,
  with_target, relay_reaction, reply_route, send_reply, reply_message, reply_sender, reply_to_id,
  reply_to_row, handle_matrix_reply,
}
use meshtastic_matrix_relay.Relaying.Messages.{
  remote_text, remote_prefix, sensor_request, sensor_on, handle_detection_sensor_packet, made,
  on_channel, relay_text, outgoing, relay_message,
}
use meshtastic_matrix_relay.Relaying.Cases.{P-offer}

-- A property of the texts that a message has for the plugins and for the mesh.
pub P-outgoing :
    (P : Option (Text × Text) → Type 0) (f : Facade) (config : Fields) (event : Event) (c : Content)
    → P none
    → (text_eq c.meshnet_name (local_meshnet_name config) ≡ false
        → P (
            some (
              remote_text f config c,
              sendable f.strings config (remote_prefix f config c ++ remote_text f config c),
            )))
    → ((is_filled c.longname && is_filled c.meshnet_name) ≡ false
        → P (
            some (
              c.message,
              sendable f.strings config
                  (get_meshtastic_prefix f.strings config f.display_name event.sender ++ c.message),
            )))
    → P (outgoing f config event c)
unfolding outgoing
P-outgoing P f config event c nothing remote local =
    if_rule P (is_filled c.longname && is_filled c.meshnet_name)
      (λ _.
        if_rule P (text_eq c.meshnet_name (local_meshnet_name config)) (λ _. nothing)
          (λ other.
            if_rule P (is_filled (remote_text f config c)) (λ _. remote other) (λ _. nothing)))
      local

module _ (P : List Request → Type 0) (nothing : P []) (f : Facade) (config room : Fields)
    (room_id : Text) (event : Event) (storage : Bool) where
  P-made :
      (n : ℕ) (plan : Option (List Request))
      → ((rs : List Request) → plan ≡ some rs → P (queue_all f n rs).0)
      → P (made f n plan)
  P-made n none h = nothing
  P-made n (some rs) h = h rs refl

  -- The plans for a text, by the channel that it goes to.
  abbrev pub Planned : ℕ → Sender → Text → Type 0
  Planned n sender message =
      (channel : ℕ) (rs : List Request)
      → planned f (reply_route config room room_id storage sender channel) event message ≡ some rs
      → P (queue_all f n rs).0

  P-on_channel :
      (full : Text) (n : ℕ) (channel : Option ℕ)
      → Planned n send_text full
      → P (on_channel f config room room_id event storage full n channel)
  unfolding on_channel
  P-on_channel full n none h = nothing
  P-on_channel full n (some channel) h =
      if_rule P (broadcast_enabled config) (λ _. P-made n _ (h channel)) (λ _. nothing)

  P-sensor_on :
      (message : Text) (channel : Option ℕ)
      → ((channel : ℕ) → P (sensor_request message channel ∷ []))
      → P (sensor_on message channel)
  P-sensor_on message none h = nothing
  P-sensor_on message (some channel) h = h channel

  P-with_channel :
      (emoji : Text) (target : ℤ) (channel : Option ℕ)
      → ((channel : ℕ) → P (reaction_request room emoji target channel ∷ []))
      → P (with_channel config room emoji target channel)
  unfolding with_channel
  P-with_channel emoji target none h = nothing
  P-with_channel emoji target (some channel) h =
      if_rule P (broadcast_enabled config) (λ _. h channel) (λ _. nothing)

  pub P-relay_reaction :
      (c : Content)
      → ((target : ℤ) (channel : ℕ)
          → reaction_target f config event c ≡ some target
          → is_filled c.reaction_emoji ≡ true
          → P (reaction_request room c.reaction_emoji target channel ∷ []))
      → P (relay_reaction f config room event c)
  unfolding relay_reaction with_target
  P-relay_reaction c h = elim (Option-cases (reaction_target f config event c)) [
    | inl e ↦ rw e nothing
    | inr (target, e) ↦ rw e (
        if_rule P (is_filled c.reaction_emoji)
          (λ filled.
            P-with_channel c.reaction_emoji target (interface_and_channel f room)
              (λ channel. h target channel e filled))
          (λ _. nothing))
  ]

  pub P-relay_text :
      (texts : Text × Text) (n : ℕ)
      → ((channel : ℕ) → P (sensor_request texts.0 channel ∷ []))
      → Planned n send_text texts.1
      → P (relay_text f config room room_id event storage texts n)
  unfolding relay_text handle_detection_sensor_packet
  P-relay_text (message, full) n sensor text =
      if_rule P
        (is_detection_port f (or_default (get event.content (codes "meshtastic_portnum")) null))
        (λ _.
          if_rule P (broadcast_enabled config)
            (λ _.
              if_rule P (detection_sensor_enabled (some config))
                (λ _. P-sensor_on message (interface_and_channel f room) sensor) (λ _. nothing))
            (λ _. nothing))
        (λ _. P-on_channel full n (interface_and_channel f room) text)

  pub P-relay_message :
      (c : Content) (n : ℕ)
      → ((texts : Text × Text)
          → outgoing f config event c ≡ some texts
          → P (relay_text f config room room_id event storage texts n))
      → P (requests (relay_message f config room room_id event storage c n))
  unfolding relay_message requests
  P-relay_message c n h = elim (Option-cases (outgoing f config event c)) [
    | inl e ↦ rw e nothing
    | inr (texts, e) ↦
        rw e (P-offer P nothing f config room room_id event storage texts n (h texts e))
  ]

  pub P-send_reply :
      (sender : Sender) (message : Text) (channel : Option ℕ)
      → Planned zero sender message
      → P (send_reply f config room room_id event storage sender message channel).0
  unfolding send_reply
  P-send_reply sender message none h = nothing
  P-send_reply sender message (some channel) h =
      if_rule (λ (sent : List Request × Bool). P sent.0) (broadcast_enabled config)
        (λ _. answer _ (h channel)) (λ _. nothing)
    where
      answer :
          (plan : Option (List Request))
          → ((rs : List Request) → plan ≡ some rs → P (queue_all f zero rs).0)
          → P (planned_or_false f plan).0
      answer none k = nothing
      answer (some rs) k = k rs refl

  abbrev pub Replied : Option (List Request × Bool) → Type 0
  Replied none = Unit
  Replied (some sent) = P sent.0

  pub P-handle_matrix_reply :
      (c : Content)
      → ((sender : Sender) → Planned zero sender (reply_message f config event c))
      → Replied (handle_matrix_reply f config room room_id event storage c)
  unfolding handle_matrix_reply reply_to_row reply_to_id
  P-handle_matrix_reply c h = of_row (get_by_event f.map_fails c.reply_to_event_id f.message_map)
    where
      of_id :
          (id : Option (Option ℤ)) → Replied (reply_to_id f config room room_id event storage c id)
      of_id none = tt
      of_id (some id) =
          P-send_reply (reply_sender id) (reply_message f config event c)
            (interface_and_channel f room) (h (reply_sender id))

      of_row : (row : Option Row) → Replied (reply_to_row f config room room_id event storage c row)
      of_row none = nothing
      of_row (some row) = of_id (parse_meshtastic_reply_id f (str row.meshtastic_id))
