-- ===== src/MessageQueue/Delivery/Receipts.antt =====
-- matrix/delivery.py: the delivery info that the queue is given. `str()` of a value, and what
-- `float()` reads in a string, are parameters. A raised TypeError or ValueError is `none`.
use meshtastic_matrix_relay.Prelude.{
  ◌≡◌, ◌≢◌, refl, sym, subst, ◌∙◌, Bool, true, false, Option, none, some, [], ◌∷◌, ℤ, pos, arith,
  if◌then◌else◌,
}
use meshtastic_matrix_relay.Text.{Text, codes, text_eq}
use meshtastic_matrix_relay.PyValue.{
  Value, null, bool, float, str, dict, Fields, end, field, get, get_in, or_default, as_dict, truthy,
  float_of,
}
use meshtastic_matrix_relay.MessageQueue.Delivery.{
  Reaction, sent, ack, nak, timeout, Tracking, is_tracked, key, prepare, send_delivery_reaction,
}

pub record Receipts : Type 0 where
  pub enabled : Bool
  pub request_ack : Bool
  pub timeout_secs : ℤ
  pub emoji : Reaction → Text

abbrev pub default_emoji : Reaction → Text
default_emoji sent = codes "📡"
default_emoji ack = codes "✅"
default_emoji nak = codes "❌"
default_emoji timeout = codes "⌛"

abbrev pub emojis : Receipts → Fields
emojis r = field (key sent) (str (r.emoji sent)) (
    field (key ack) (str (r.emoji ack))
      (field (key nak) (str (r.emoji nak)) (field (key timeout) (str (r.emoji timeout)) end)))

abbrev pub info_of : Text → Text → Receipts → Fields
info_of room_id event_id r = field (codes "room_id") (str room_id) (
    field (codes "event_id") (str event_id) (
      field (codes "request_ack") (bool r.request_ack) (
        field (codes "timeout_secs") (float r.timeout_secs)
          (field (codes "reactions") (dict (emojis r)) end))))

info_if_enabled : Text → Text → Option (Option Receipts) → Option (Option Fields)
info_if_enabled room_id event_id none = none
info_if_enabled room_id event_id (some none) = some none
info_if_enabled room_id event_id (some (some r)) =
    if r.enabled then some (some (info_of room_id event_id r)) else some none

module _ (parse : Text → Option ℤ) (show : Value → Text) where
  emoji_of : Option Fields → Reaction → Text
  emoji_of reactions reaction =
      show (or_default (get_in reactions (key reaction)) (str (default_emoji reaction)))

  with_timeout : Fields → Option ℤ → Option (Option Receipts)
  unfolding emoji_of
  with_timeout receipts none = none
  with_timeout receipts (some z) = some (
      some (record {
        enabled = truthy (or_default (get receipts (codes "enabled")) (bool false));
        request_ack = truthy (or_default (get receipts (codes "request_ack")) (bool true));
        timeout_secs = z;
        emoji = emoji_of (as_dict (get receipts (codes "reactions")));
      }))

  -- `some none` is the answer that receipts are off, without further settings.
  receipts_of : Option Fields → Option (Option Receipts)
  unfolding with_timeout
  receipts_of none = some none
  receipts_of (some receipts) =
      with_timeout receipts
        (float_of parse (or_default (get receipts (codes "timeout_secs")) (float (pos 60000))))

  -- `get_delivery_receipts_config`
  unfoldable pub get_delivery_receipts_config : Option Fields → Option (Option Receipts)
  unfolding receipts_of
  get_delivery_receipts_config config =
      receipts_of (
        as_dict (get_in (as_dict (get_in config (codes "meshtastic"))) (codes "delivery_receipts")))

  -- `some none` is the answer None.
  unfoldable pub create_delivery_info : Text → Text → Option Fields → Option (Option Fields)
  unfolding info_if_enabled
  create_delivery_info room_id event_id config =
      info_if_enabled room_id event_id (get_delivery_receipts_config config)

filled_str : (s : Text) → s ≢ [] → truthy (str s) ≡ true
filled_str [] h = absurd (h refl)
filled_str (c ∷ s) h = refl

abbrev pub has_emoji : Fields → Reaction → Bool
has_emoji info reaction =
    truthy (or_default (get_in (as_dict (get info (codes "reactions"))) (key reaction)) null)

-- The info that is made is made from some settings.
info_if_enabled-info_of :
    (room_id event_id : Text) (settings : Option (Option Receipts)) (info : Fields)
    → info_if_enabled room_id event_id settings ≡ some (some info)
    → (r : Receipts) × (info ≡ info_of room_id event_id r)
unfolding info_if_enabled
info_if_enabled-info_of room_id event_id none info h = absurd (ground (arith, h))
info_if_enabled-info_of room_id event_id (some none) info h = absurd (ground (arith, h))
info_if_enabled-info_of room_id event_id (some (some r)) info h = (r, ground (arith, h))

prepare-info : (t : Tracking) → (prepare t).info ≡ t.info
unfolding prepare
prepare-info t = ground arith

prepare-has_loop : (t : Tracking) → is_tracked t.info ≡ true → (prepare t).has_loop ≡ true
unfolding prepare
prepare-has_loop t h = ground arith

info_of-reacts :
    (room_id event_id : Text) (r : Receipts) (t : Tracking) (reaction : Reaction)
    → room_id ≢ []
    → event_id ≢ []
    → t.info ≡ info_of room_id event_id r
    → t.has_loop ≡ true
    → has_emoji t.info reaction ≡ true
    → send_delivery_reaction t true reaction ≡ reaction ∷ []
unfolding send_delivery_reaction get text_eq
info_of-reacts room_id event_id r t reaction a b e l h = ground (
  arith,
  l,
  h,
  subst (λ i. truthy (or_default (get i (codes "room_id")) null) ≡ true) (sym e)
      (filled_str room_id a),
  subst (λ i. truthy (or_default (get i (codes "event_id")) null) ≡ true) (sym e)
      (filled_str event_id b),
)

info_of-is_tracked :
    (room_id event_id : Text) (r : Receipts) (info : Fields)
    → info ≡ info_of room_id event_id r
    → is_tracked info ≡ true
info_of-is_tracked room_id event_id r info e = subst (λ i. is_tracked i ≡ true) (sym e) refl

module _ (parse : Text → Option ℤ) (show : Value → Text) where
  -- For a message that is tracked with the delivery info made for its room and event, the
  -- preparation makes every reaction with an emoji in the info go out while the event loop is open.
  create_delivery_info-reacts :
      (room_id event_id : Text) (config : Option Fields) (t : Tracking) (reaction : Reaction)
      → room_id ≢ []
      → event_id ≢ []
      → create_delivery_info parse show room_id event_id config ≡ some (some t.info)
      → has_emoji t.info reaction ≡ true
      → send_delivery_reaction (prepare t) true reaction ≡ reaction ∷ []
  unfolding create_delivery_info
  create_delivery_info-reacts room_id event_id config t reaction a b made h =
      let (r, e) =
        info_if_enabled-info_of room_id event_id (get_delivery_receipts_config parse show config)
          t.info made in
      info_of-reacts room_id event_id r (prepare t) reaction a b (prepare-info t ∙ e)
        (prepare-has_loop t (info_of-is_tracked room_id event_id r t.info e))
        (subst (λ i. has_emoji i reaction ≡ true) (sym (prepare-info t)) h)
