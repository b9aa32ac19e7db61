-- ===== src/Alerts.antt =====
-- matrix/alerts.py: the monitor that raises and clears operational alerts in the control rooms.
-- The strings that name an alert are the data type `Key`. A time is a number of milliseconds of the
-- monotonic clock, and other floats are thousandths. What `str`, `int`, `float` and the format
-- codes do is the record `Formats`. An exception of `send_alert` is swallowed by the code and left
-- out.
pub mod Samples
pub mod Checks
pub mod Signals
pub mod Ledgers
pub mod Steps
pub mod Independence
pub mod Calls
pub mod Spacing
mod Tests
use meshtastic_matrix_relay.Prelude.{
  ℕ, suc, ◌+◌, ℤ, pos, Bool, true, false, ◌&&◌, ◌||◌, not, Option, none, some, List, [], ◌∷◌, ◌++◌,
  leb, ◌==◌, if◌then◌else◌,
}
use meshtastic_matrix_relay.Text.{Text, codes, text_eq, strip}
use meshtastic_matrix_relay.PyValue.{
  Value, Fields, Items, null, bool, str, list, dict, nil, cons, end, field, get, or_default,
  as_dict, truthy, text_is, int_of, float_of,
}

pub data Key : Type 0 where
  queue : Key
  connection : Key
  battery : Key
  mesh_silence : Key
  channel_utilization : Key
  lora_tx_disabled : Key
  mqtt : Key

abbrev pub key_index : Key → ℕ
key_index queue = 0
key_index connection = 1
key_index battery = 2
key_index mesh_silence = 3
key_index channel_utilization = 4
key_index lora_tx_disabled = 5
key_index mqtt = 6

unfoldable pub same_key : Key → Key → Bool
same_key k j = key_index k == key_index j

pub record Formats : Type 0 where
  pub is_space : ℕ → Bool
  pub show : Value → Text
  pub parse_int : Text → Option ℤ
  pub parse_float : Text → Option ℤ
  pub decimal : ℕ → Text
  pub fixed : ℕ → ℤ → Text
  pub minutes : ℕ → Text

-- A call of `_send`: for which key and whether it is an alert or a recovery, the time that
-- `_update` read, the control rooms, and the message.
pub record Post : Type 0 where
  pub about : Key
  pub is_alert : Bool
  pub at : ℕ
  pub rooms : List Text
  pub message : Text

-- `active` and `last_sent` of the monitor, and what was sent, the last call of `_send` first.
pub record Ledger : Type 0 where
  pub active : List Key
  pub last_sent : List (Key × ℕ)
  pub sent : List Post

-- The other fields of `AlertMonitor`.
pub record Monitor : Type 0 where
  pub settings : Fields
  pub started_at : ℕ
  pub ledger : Ledger
  pub last_mqtt_probe : ℕ
  pub last_manual_suspend : Bool
  pub connection_grace_until : ℕ

-- `_dict_section`
abbrev pub dict_section : Fields → Text → Fields
dict_section mapping key = dict_or_empty (get mapping key)
  where
    dict_or_empty : Option Value → Fields
    dict_or_empty (some (dict fs)) = fs
    dict_or_empty _ = end

abbrev pub alert_config : Value → Fields
alert_config (dict config) =
    dict_section (dict_section (dict_section config (codes "meshtastic_portals")) (codes "control"))
      (codes "alerts")
alert_config _ = end

abbrev pub is_true : Value → Bool
is_true (bool b) = b
is_true _ = false

abbrev pub alerts_enabled : Value → Bool
alerts_enabled config =
    is_true (or_default (get (alert_config config) (codes "enabled")) (bool false))

abbrev pub as_rule : Option Value → Fields
as_rule (some (dict fs)) = fs
as_rule (some (bool b)) = field (codes "enabled") (bool b) end
as_rule _ = end

-- `_rule`
abbrev pub rule : Fields → Text → Fields
rule config name = as_rule (get config name)

-- `_rule_enabled`, with its default.
unfoldable pub rule_enabled : Fields → Text → Bool
rule_enabled config name =
    is_true (or_default (get (rule config name) (codes "enabled")) (bool true))

abbrev pub positive_or : ℕ → Option ℤ → ℕ
positive_or default (some (pos (suc n))) = suc n
positive_or default _ = default

abbrev pub non_negative_or : ℕ → Option ℤ → ℕ
non_negative_or default (some (pos n)) = n
non_negative_or default _ = default

module _ (formats : Formats) where
  open formats use {is_space, show, parse_int, parse_float, decimal, fixed, minutes}

  -- `_positive_float(fields.get(key), default)`, and so for the two others.
  unfoldable pub positive_float : Fields → Text → ℕ → ℕ
  positive_float fields key default =
      positive_or default (float_of parse_float (or_default (get fields key) null))

  unfoldable pub non_negative_float : Fields → Text → ℕ → ℕ
  non_negative_float fields key default =
      non_negative_or default (float_of parse_float (or_default (get fields key) null))

  unfoldable pub positive_int : Fields → Text → ℕ → ℕ
  positive_int fields key default =
      positive_or default (int_of parse_int (or_default (get fields key) null))

  unfoldable pub cooldown_seconds : Fields → ℕ
  unfolding positive_float
  cooldown_seconds settings = positive_float settings (codes "cooldown_seconds") 3600000

abbrev pub control_id : Fields → List Text → List Text
control_id room rest =
    if text_is (codes "control") (or_default (get room (codes "meshtastic_portal_type")) null)
    then id_before (get room (codes "id"))
    else rest
  where
    id_before : Option Value → List Text
    id_before (some (str (c ∷ s))) = (c ∷ s) ∷ rest
    id_before _ = rest

unfoldable pub control_ids : Items → List Text
control_ids nil = []
control_ids (cons (dict room) rooms) = control_id room (control_ids rooms)
control_ids (cons _ rooms) = control_ids rooms

-- `_control_room_ids`
unfoldable pub control_room_ids : Fields → List Text
unfolding control_ids
control_room_ids config = rooms_of (get config (codes "matrix_rooms"))
  where
    rooms_of : Option Value → List Text
    rooms_of (some (list rooms)) = control_ids rooms
    rooms_of _ = []

unfoldable pub has_key : Key → List Key → Bool
has_key k [] = false
has_key k (j ∷ js) = same_key j k || has_key k js

unfoldable pub activate : Key → List Key → List Key
unfolding has_key
activate k js = if has_key k js then js else k ∷ js

unfoldable pub discard : Key → List Key → List Key
discard k [] = []
discard k (j ∷ js) = let rest = discard k js in if same_key j k then rest else j ∷ rest

unfoldable pub sent_at : Key → List (Key × ℕ) → Option ℕ
sent_at k [] = none
sent_at k ((j, t) ∷ l) = if same_key j k then some t else sent_at k l

unfoldable pub note_sent : Key → ℕ → List (Key × ℕ) → List (Key × ℕ)
note_sent k now [] = (k, now) ∷ []
note_sent k now ((j, t) ∷ l) =
    let rest = note_sent k now l in if same_key j k then (j, now) ∷ l else (j, t) ∷ rest

unfoldable pub forget_sent : Key → List (Key × ℕ) → List (Key × ℕ)
forget_sent k [] = []
forget_sent k ((j, t) ∷ l) =
    let rest = forget_sent k l in if same_key j k then rest else (j, t) ∷ rest

-- `_send`
unfoldable pub send : Post → Ledger → Ledger
send post l = record l { sent = post ∷ l.sent }

-- `_clear`
unfoldable pub clear : Key → Ledger → Ledger
unfolding discard forget_sent
clear key l = record l { active = discard key l.active; last_sent = forget_sent key l.last_sent }

-- Whether the last alert is as old as the cooldown.
unfoldable pub is_due : ℕ → ℕ → Option ℕ → Bool
is_due cooldown now none = true
is_due cooldown now (some last) = leb (last + cooldown) now

abbrev pub alert_text : Text → Text
alert_text message = codes "Meshtastic alert\n\n" ++ message

abbrev pub recovery_text : Text → Text
recovery_text message = codes "Meshtastic recovery\n\n" ++ message

unfoldable pub raise_alert : ℕ → List Text → Key → ℕ → Text → Ledger → Ledger
unfolding activate sent_at note_sent send is_due has_key
raise_alert cooldown rooms key now message l =
    if not (has_key key l.active) || is_due cooldown now (sent_at key l.last_sent)
    then (let l' =
          send
            (record {
              about = key;
              is_alert = true;
              at = now;
              rooms = rooms;
              message = alert_text message;
            })
            (record l { active = activate key l.active }) in
        record l' { last_sent = note_sent key now l'.last_sent })
    else record l { active = activate key l.active }

unfoldable pub lower_alert : Bool → List Text → Key → ℕ → Text → Ledger → Ledger
unfolding clear send has_key
lower_alert notifies rooms key now message l =
    if has_key key l.active
    then if notifies
      then send
          (record {
            about = key;
            is_alert = false;
            at = now;
            rooms = rooms;
            message = recovery_text message;
          })
          (clear key l)
      else clear key l
    else l

abbrev pub notifies : Fields → Bool
notifies settings = is_true (or_default (get settings (codes "recovery_notifications")) (bool true))

module _ (formats : Formats) where
  -- `_update`, at the time that it reads.
  unfoldable pub update : Fields → List Text → Key → Option Bool → ℕ → Text → Text → Ledger → Ledger
  unfolding raise_alert lower_alert cooldown_seconds
  update settings rooms key none now alert recovery l = l
  update settings rooms key (some true) now alert recovery l =
      raise_alert (cooldown_seconds formats settings) rooms key now alert l
  update settings rooms key (some false) now alert recovery l =
      lower_alert (notifies settings) rooms key now recovery l
