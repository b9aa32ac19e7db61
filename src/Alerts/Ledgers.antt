-- ===== src/Alerts/Ledgers.antt =====
-- The calls of `_update` and `_clear` move the machine of their key, and no other.
use meshtastic_matrix_relay.Prelude.{
  ℕ, zero, suc, ◌≡◌, refl, sym, ap, ◌∙◌, Bool, true, false, ◌||◌, Option, none, some, List, [], ◌∷◌,
  if◌then◌else◌, arith, ==_iff,
}
use meshtastic_matrix_relay.Text.{Text}
use meshtastic_matrix_relay.PyValue.{Fields}
use meshtastic_matrix_relay.Alerts.{
  Key, queue, connection, battery, mesh_silence, channel_utilization, lora_tx_disabled, mqtt,
  key_index, same_key, Formats, Ledger, has_key, activate, discard, sent_at, note_sent, forget_sent,
  send, clear, is_due, raise_alert, lower_alert, update, cooldown_seconds, notifies,
}
use meshtastic_matrix_relay.Alerts.Signals.{Status, quiet, keep, level, status, react, signal_of}

abbrev key_at : ℕ → Key
key_at zero = queue
key_at (suc zero) = connection
key_at (suc (suc zero)) = battery
key_at (suc (suc (suc zero))) = mesh_silence
key_at (suc (suc (suc (suc zero)))) = channel_utilization
key_at (suc (suc (suc (suc (suc zero))))) = lora_tx_disabled
key_at (suc (suc (suc (suc (suc (suc n)))))) = mqtt

key_at-key_index : (k : Key) → key_at (key_index k) ≡ k
key_at-key_index queue = refl
key_at-key_index connection = refl
key_at-key_index battery = refl
key_at-key_index mesh_silence = refl
key_at-key_index channel_utilization = refl
key_at-key_index lora_tx_disabled = refl
key_at-key_index mqtt = refl

pub same_key-≡ : (j k : Key) → same_key j k ≡ true → j ≡ k
unfolding same_key
same_key-≡ j k h =
    sym (key_at-key_index j)
    ∙ ap key_at ((==_iff (key_index j) (key_index k)).0 h)
    ∙ key_at-key_index k

same_key-same : (i j k : Key) → same_key i j ≡ true → same_key i k ≡ same_key j k
same_key-same i j k h = ap (λ x. same_key x k) (same_key-≡ i j h)

same_key-end : (i j k : Key) → same_key j k ≡ true → same_key i j ≡ same_key i k
same_key-end i j k h = ap (same_key i) (same_key-≡ j k h)

has_key-same : (j k : Key) (js : List Key) → same_key j k ≡ true → has_key j js ≡ has_key k js
has_key-same j k js h = ap (λ x. has_key x js) (same_key-≡ j k h)

has_key-activate :
    (j k : Key) (js : List Key) → has_key k (activate j js) ≡ (same_key j k || has_key k js)
unfolding activate has_key
has_key-activate j k js = ground (arith, has_key-same j k js)

has_key-discard :
    (j k : Key) (js : List Key)
    → has_key k (discard j js) ≡ (if same_key j k then false else has_key k js)
unfolding discard has_key
has_key-discard j k [] = ground arith
has_key-discard j k (i ∷ js) =
    ground (arith, same_key-same i j k, same_key-end i j k, has_key-discard j k js)

sent_at-note_sent :
    (j k : Key) (now : ℕ) (l : List (Key × ℕ))
    → sent_at k (note_sent j now l) ≡ (if same_key j k then some now else sent_at k l)
unfolding note_sent sent_at
sent_at-note_sent j k now [] = refl
sent_at-note_sent j k now ((i, t) ∷ l) =
    ground (arith, same_key-same i j k, same_key-end i j k, sent_at-note_sent j k now l)

sent_at-forget_sent :
    (j k : Key) (l : List (Key × ℕ))
    → sent_at k (forget_sent j l) ≡ (if same_key j k then none else sent_at k l)
unfolding forget_sent sent_at
sent_at-forget_sent j k [] = ground arith
sent_at-forget_sent j k ((i, t) ∷ l) =
    ground (arith, same_key-same i j k, same_key-end i j k, sent_at-forget_sent j k l)

pub status-clear :
    (j k : Key) (l : Ledger) → status k (clear j l) ≡ (if same_key j k then quiet else status k l)
unfolding status clear
status-clear j k l =
    ground (arith, has_key-discard j k l.active, sent_at-forget_sent j k l.last_sent)

sent_at-same : (j k : Key) (l : List (Key × ℕ)) → same_key j k ≡ true → sent_at j l ≡ sent_at k l
sent_at-same j k l h = ap (λ x. sent_at x l) (same_key-≡ j k h)

pub status-raise_alert :
    (cooldown : ℕ) (rooms : List Text) (j k : Key) (now : ℕ) (message : Text) (l : Ledger)
    → status k (raise_alert cooldown rooms j now message l)
      ≡ (if same_key j k then react cooldown (level true now) (status k l) else status k l)
unfolding status raise_alert send is_due react
status-raise_alert cooldown rooms j k now message l = ground (
  arith,
  has_key-activate j k l.active,
  sent_at-note_sent j k now l.last_sent,
  has_key-same j k l.active,
  sent_at-same j k l.last_sent,
)

pub status-lower_alert :
    (told : Bool) (rooms : List Text) (j k : Key) (now : ℕ) (cooldown : ℕ) (message : Text)
    (l : Ledger)
    → status k (lower_alert told rooms j now message l)
      ≡ (if same_key j k then react cooldown (level false now) (status k l) else status k l)
unfolding status lower_alert send react clear
status-lower_alert told rooms j k now cooldown message l = ground (
  arith,
  has_key-discard j k l.active,
  sent_at-forget_sent j k l.last_sent,
  has_key-same j k l.active,
)

pub react-keep :
    (b : Bool) (cooldown : ℕ) (st : Status) → st ≡ (if b then react cooldown keep st else st)
unfolding react
react-keep true cooldown st = refl
react-keep false cooldown st = refl

pub status-update :
    (formats : Formats) (settings : Fields) (rooms : List Text) (j k : Key)
    (condition : Option Bool) (now : ℕ) (alert recovery : Text) (l : Ledger)
    → status k (update formats settings rooms j condition now alert recovery l) ≡ (
        if same_key j k
        then react (cooldown_seconds formats settings) (signal_of condition now) (status k l)
        else status k l)
unfolding update signal_of
status-update formats settings rooms j k none now alert recovery l =
    react-keep (same_key j k) (cooldown_seconds formats settings) (status k l)
status-update formats settings rooms j k (some true) now alert recovery l =
    status-raise_alert (cooldown_seconds formats settings) rooms j k now alert l
status-update formats settings rooms j k (some false) now alert recovery l =
    status-lower_alert (notifies settings) rooms j k now (cooldown_seconds formats settings)
      recovery l
