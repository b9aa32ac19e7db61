-- ===== src/Relaying/Bounds.antt =====
-- The size of what is sent where messages are not split.
use meshtastic_matrix_relay.Relaying.SendCases.{
  Planned, Replied, P-outgoing, P-relay_reaction, P-relay_text, P-relay_message,
  P-handle_matrix_reply,
}
use meshtastic_matrix_relay.Prelude.{
  ℕ, zero, suc, ◌≤◌, ◌≡◌, refl, sym, subst, Bool, true, false, ◌&&◌, Option, none, some, List, [],
  ◌∷◌, ◌++◌, length, Bool-cases, inl, inr, ok, if_rule,
}
use meshtastic_matrix_relay.Text.{Text, utf8_len}
use meshtastic_matrix_relay.PyValue.{Value, Fields}
use meshtastic_matrix_relay.Fragments.{Settings, split_text_for_meshtastic}
use meshtastic_matrix_relay.Replies.{fragments, is_fragmented}
use meshtastic_matrix_relay.Replies.Truncation.{utf8_len-sendable, format_reply_message-IsCut}
use meshtastic_matrix_relay.Relaying.{
  Event, Facade, Sender, send_text, send_text_reply, send_text_reaction, send_data, Request,
  requests,
}
use meshtastic_matrix_relay.Relaying.Reactions.{relay_reaction, reply_route, reply_message}
use meshtastic_matrix_relay.Relaying.Messages.{
  outgoing, relay_message, after_reply, reply_or_message, bridge, on_room_message, queued,
}
use meshtastic_matrix_relay.Relaying.Cases.{requests-queued, requests-append, P-on_room_message}
use meshtastic_matrix_relay.Relaying.Contents.{Content, read_content}
use meshtastic_matrix_relay.Replies.Interactions.{
  Interactions, get_interaction_settings, message_storage_enabled,
}
use meshtastic_matrix_relay.MessageMap.{is_filled}
use meshtastic_matrix_relay.Relaying.Sending.{
  Route, fragmentation, fragment_request, with_delivery, of_split, planned, queue_all,
}

-- A text or a reply takes at most 227 bytes.
abbrev pub TextFits : Sender → Text → Type 0
TextFits send_text payload = utf8_len payload ≤ 227
TextFits (send_text_reply id) payload = utf8_len payload ≤ 227
TextFits (send_text_reaction id) payload = Unit
TextFits send_data payload = Unit

abbrev pub AllFit : List Request → Type 0
AllFit [] = Unit
AllFit (r ∷ rs) = TextFits r.send r.payload × AllFit rs

short-TextFits : (send : Sender) (payload : Text) → utf8_len payload ≤ 227 → TextFits send payload
short-TextFits send_text payload h = h
short-TextFits (send_text_reply id) payload h = h
short-TextFits (send_text_reaction id) payload h = tt
short-TextFits send_data payload h = tt

AllFit-append :
    (before after : List Request) → AllFit before → AllFit after → AllFit (before ++ after)
AllFit-append [] after h k = k
AllFit-append (r ∷ before) after h k = (h.0, AllFit-append before after h.1 k)

AllFit-queue_all :
    (f : Facade) (n : ℕ) (rs : List Request) → AllFit rs → AllFit (queue_all f n rs).0
unfolding queue_all
AllFit-queue_all f n [] h = tt
AllFit-queue_all f n (r ∷ rs) h = elim (Bool-cases (f.accepts n)) [
  | inl y ↦ rw y (h.0, AllFit-queue_all f (suc n) rs h.1)
  | inr y ↦ rw y (h.0, tt)
]

abbrev PlanFits : Option (List Request) → Type 0
PlanFits none = Unit
PlanFits (some rs) = AllFit rs

PlanFits-with_delivery :
    (f : Facade) (r : Route) (event : Event) (message : Text) (delivery : Option (Option Fields))
    → utf8_len message ≤ 227
    → PlanFits (with_delivery f r event (message ∷ []) delivery)
unfolding with_delivery fragment_request
PlanFits-with_delivery f r event message none h = tt
PlanFits-with_delivery f r event message (some delivery) h = (short-TextFits r.sender message h, tt)

unsplit_by :
    (f : Facade) (settings : Option Settings) (message : Text)
    → fragments f.strings settings ≡ false
    → split_text_for_meshtastic f.ops message settings ≡ ok (message ∷ [])
unfolding split_text_for_meshtastic
unsplit_by f none message h = refl
unsplit_by f (some s) message h = rw h refl

unsplit :
    (f : Facade) (config : Fields) (message : Text)
    → is_fragmented f.strings config ≡ false
    → split_text_for_meshtastic f.ops message (fragmentation f config) ≡ ok (message ∷ [])
unfolding is_fragmented
unsplit f config message h = unsplit_by f (fragmentation f config) message h

PlanFits-planned :
    (f : Facade) (r : Route) (event : Event) (message : Text)
    → is_fragmented f.strings r.config ≡ false
    → utf8_len message ≤ 227
    → PlanFits (planned f r event message)
unfolding planned of_split
PlanFits-planned f r event message off h =
    rw (unsplit f r.config message off) (PlanFits-with_delivery f r event message _ h)

-- Without fragments, no request of an event is for a longer text.
module _ (f : Facade) (config room : Fields) (room_id : Text) (event : Event) (storage : Bool)
    (off : is_fragmented f.strings config ≡ false) where
  AllFit-Planned :
      (n : ℕ) (sender : Sender) (message : Text)
      → utf8_len message ≤ 227
      → Planned AllFit tt f config room room_id event storage n sender message
  AllFit-Planned n sender message h channel rs e = AllFit-queue_all f n rs (
      subst PlanFits e (
        PlanFits-planned f (reply_route config room room_id storage sender channel) event message
          off h))

  abbrev TextsFit : Option (Text × Text) → Type 0
  TextsFit none = Unit
  TextsFit (some texts) = utf8_len texts.1 ≤ 227

  TextsFit-outgoing : (c : Content) → TextsFit (outgoing f config event c)
  TextsFit-outgoing c =
      P-outgoing TextsFit f config event c tt (λ _. utf8_len-sendable f.strings config _ off)
        (λ _. utf8_len-sendable f.strings config _ off)

  AllFit-relay_message :
      (c : Content) (n : ℕ)
      → AllFit (requests (relay_message f config room room_id event storage c n))
  AllFit-relay_message c n =
      P-relay_message AllFit tt f config room room_id event storage c n (λ texts e.
        P-relay_text AllFit tt f config room room_id event storage texts n (λ channel. (tt, tt))
          (AllFit-Planned n send_text texts.1 (subst TextsFit e (TextsFit-outgoing c))))

  AllFit-after_reply :
      (c : Content) (answer : Option (List Request × Bool))
      → Replied AllFit tt f config room room_id event storage answer
      → AllFit (requests (after_reply f config room room_id event storage c answer))
  unfolding after_reply requests
  AllFit-after_reply c none h = tt
  AllFit-after_reply c (some (rs, true)) h = subst AllFit (sym (requests-queued rs)) h
  AllFit-after_reply c (some (rs, false)) h = subst AllFit (sym (requests-append (queued rs) _)) (
      AllFit-append (requests (queued rs)) _ (subst AllFit (sym (requests-queued rs)) h)
        (AllFit-relay_message c (length rs)))

  AllFit-reply : (c : Content) → utf8_len (reply_message f config event c) ≤ 227
  AllFit-reply c = (format_reply_message-IsCut f.strings config _ _ _ _ _ _ _ _ off).fits

module _ (f : Facade) (config room : Fields) (room_id : Text) (event : Event)
    (off : is_fragmented f.strings config ≡ false) where
  AllFit-reply_or_message :
      (interactions : Interactions) (c : Content)
      → AllFit (requests (reply_or_message f config room room_id event interactions c))
  unfolding reply_or_message
  AllFit-reply_or_message interactions c =
      let storage = message_storage_enabled interactions in
      if_rule (λ actions. AllFit (requests actions))
        (is_filled c.reply_to_event_id && interactions.replies)
        (λ _. AllFit-after_reply f config room room_id event storage off c _ (
          P-handle_matrix_reply AllFit tt f config room room_id event storage c (λ sender.
            AllFit-Planned f config room room_id event storage off zero sender _
              (AllFit-reply f config room room_id event storage off c))))
        (λ _. AllFit-relay_message f config room room_id event storage off c zero)

  AllFit-bridge :
      (interactions : Interactions) (c : Content)
      → AllFit (requests (bridge f config room room_id event interactions c))
  unfolding bridge requests
  AllFit-bridge interactions c =
      if_rule (λ actions. AllFit (requests actions)) c.is_reaction
        (λ _.
          if_rule (λ actions. AllFit (requests actions)) interactions.reactions
            (λ _. subst AllFit (sym (requests-queued (relay_reaction f config room event c))) (
              P-relay_reaction AllFit tt f config room room_id event
                (message_storage_enabled interactions) c (λ target channel e filled. (tt, tt))))
            (λ _. tt))
        (λ _. AllFit-reply_or_message interactions c)

abbrev pub splits : Facade → Option Fields → Bool
splits f none = false
splits f (some config) = is_fragmented f.strings config

-- Where the configuration does not split messages, every text and every reply that an event asks the
-- queue for takes at most 227 bytes, its prefix included, whatever the event holds.
pub on_room_message-AllFit :
    (f : Facade) (room_id : Text) (event : Event)
    → splits f f.config ≡ false
    → AllFit (requests (on_room_message f room_id event))
on_room_message-AllFit f room_id event off =
    P-on_room_message AllFit tt f room_id event (λ config room e.
      AllFit-bridge f config room room_id event (subst (λ o. splits f o ≡ false) e off)
        (get_interaction_settings (Value.dict config)) (read_content f.strings.is_space event))
