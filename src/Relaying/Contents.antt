-- ===== src/Relaying/Contents.antt =====
-- What `on_room_message` reads off the content of an event.
use meshtastic_matrix_relay.Prelude.{
  ℕ, Bool, true, false, ◌||◌, not, Option, none, some, [], ◌∷◌, drop, ◌==◌, if◌then◌else◌, ℤ, pos,
}
use meshtastic_matrix_relay.Text.{Text, codes, text_eq, starts_with, strip}
use meshtastic_matrix_relay.PyValue.{
  Value, null, bool, int, float, str, Fields, get, or_default, truthy, text_is, bit,
}
use meshtastic_matrix_relay.Relaying.{Kind, emote, reaction, Event, Facade}
use meshtastic_matrix_relay.Relaying.Rooms.{first_text, text_at, section_or_end}

-- The local variables of the handler that stand for the content; a name or an id that is missing is
-- the empty text.
pub record Content : Type 0 where
  pub is_reaction : Bool
  pub reaction_emoji : Text
  pub original_event_id : Text
  pub mesh_text_override : Text
  pub longname : Text
  pub shortname : Option Text
  pub meshnet_name : Text
  pub reply_id : Value
  pub message : Text
  pub reply_to_event_id : Text

-- `.+?` up to ` to`, on one line.
unfoldable pub before_to : Text → Option Text
before_to [] = none
before_to (c ∷ s) = longer c (starts_with s (codes " to")) (before_to s)
  where
    longer : ℕ → Bool → Option Text → Option Text
    longer c true rest = if c == 10 then none else some (c ∷ [])
    longer c false none = none
    longer c false (some t) = if c == 10 then none else some (c ∷ t)

abbrev or_emoji : Option Text → Option Text → Option Text
or_emoji (some t) later = some t
or_emoji none later = later

-- `re.search(r"reacted (.+?) to", body)`, the group.
unfoldable pub reacted_with : Text → Option Text
unfolding before_to
reacted_with [] = none
reacted_with (c ∷ s) =
    let later = reacted_with s in
    if starts_with (c ∷ s) (codes "reacted ")
    then or_emoji (before_to (drop 8 (c ∷ s))) later
    else later

abbrev text_of : Option Value → Text
text_of (some (str s)) = s
text_of _ = []

abbrev str_of : Option Value → Option Text
str_of (some (str s)) = some s
str_of _ = none

abbrev value_at : Fields → Text → Value
value_at content key = or_default (get content key) null

-- `m.relates_to`
abbrev pub relates_to : Event → Fields
relates_to event = section_or_end (get event.content (codes "m.relates_to"))

abbrev emote_is_reaction : Event → Bool
emote_is_reaction event =
    truthy (value_at event.content (codes "meshtastic_replyId"))
    || text_is (codes "m.annotation") (value_at (relates_to event) (codes "rel_type"))

unfoldable pub is_reaction_to : Kind → Event → Bool
is_reaction_to reaction event = true
is_reaction_to emote event = emote_is_reaction event
is_reaction_to _ event = false

-- Key and event id of a relation that has both.
abbrev pair_of : Option Value → Option Value → Text × Text
pair_of (some id) (some key) = (text_of (some key), text_of (some id))
pair_of _ _ = ([], [])

abbrev emoji_or_mark : (ℕ → Bool) → Option Text → Text
emoji_or_mark is_space none = codes "?"
emoji_or_mark is_space (some t) = strip is_space t

-- The emoji and the event of a reaction.
unfoldable pub reaction_of : (ℕ → Bool) → Kind → Event → Text × Text
unfolding reacted_with
reaction_of is_space reaction event =
    pair_of (get (relates_to event) (codes "event_id")) (get (relates_to event) (codes "key"))
reaction_of is_space emote event =
    if emote_is_reaction event
    then (
      emoji_or_mark is_space (reacted_with (text_at event.content (codes "body"))),
      text_of (get (relates_to event) (codes "event_id")),
    )
    else ([], [])
reaction_of is_space _ event = ([], [])

abbrev override_of : (ℕ → Bool) → Event → Text
override_of is_space event = strip is_space (text_at event.content (codes "meshtastic_text"))

abbrev missing : Text → Bool
missing [] = true
missing (c ∷ s) = false

unfoldable pub message_of : (ℕ → Bool) → Event → Text
unfolding is_reaction_to
message_of is_space event =
    if not (is_reaction_to event.kind event) || not (missing (override_of is_space event))
    then strip is_space (
        first_text (override_of is_space event)
          (first_text event.body (text_at event.content (codes "body"))))
    else []

-- `relates_to["m.in_reply_to"].get("event_id")`, for what is no reaction.
unfoldable pub reply_target : Event → Text
unfolding is_reaction_to
reply_target event =
    if is_reaction_to event.kind event
    then []
    else text_at (section_or_end (get (relates_to event) (codes "m.in_reply_to")))
        (codes "event_id")

unfoldable pub read_content : (ℕ → Bool) → Event → Content
unfolding reaction_of message_of reply_target is_reaction_to
read_content is_space event = record {
  is_reaction = is_reaction_to event.kind event;
  reaction_emoji = (reaction_of is_space event.kind event).0;
  original_event_id = (reaction_of is_space event.kind event).1;
  mesh_text_override = override_of is_space event;
  longname = text_at event.content (codes "meshtastic_longname");
  shortname = str_of (get event.content (codes "meshtastic_shortname"));
  meshnet_name = text_at event.content (codes "meshtastic_meshnet");
  reply_id = value_at event.content (codes "meshtastic_replyId");
  message = message_of is_space event;
  reply_to_event_id = reply_target event;
}

-- `_parse_meshtastic_reply_id`; `none` is the ValueError of `int` on digits that it does not read.
unfoldable pub parse_meshtastic_reply_id : Facade → Value → Option (Option ℤ)
parse_meshtastic_reply_id f (bool b) = some (some (bit b))
parse_meshtastic_reply_id f (int z) = some (some z)
parse_meshtastic_reply_id f (str s) = if f.is_digit s then wrapped (f.int_text s) else some none
  where
    wrapped : Option ℤ → Option (Option ℤ)
    wrapped none = none
    wrapped (some z) = some (some z)
parse_meshtastic_reply_id f _ = some none

abbrev is_ten : ℤ → Bool
is_ten (pos n) = n == 10
is_ten _ = false

abbrev read_as_ten : Option ℤ → Bool
read_as_ten none = false
read_as_ten (some z) = is_ten z

-- `portnum == PORTNUM_DETECTION_SENSOR_APP`, after the text is read as a number or a name.
unfoldable pub is_detection_port : Facade → Value → Bool
is_detection_port f (int z) = is_ten z
is_detection_port f (float (pos n)) = n == 10000
is_detection_port f (str s) =
    if f.is_digit s then read_as_ten (f.int_text s) else text_eq s (codes "DETECTION_SENSOR_APP")
is_detection_port f _ = false
