-- ===== src/Alerts/Spacing.antt =====
-- The order and the spacing of what is sent for one alert.
use meshtastic_matrix_relay.Prelude.{
  ℕ, ◌+◌, ◌≡◌, refl, sym, ap, subst, ◌∙◌, Bool, true, false, ◌&&◌, ◌||◌, not, Option, none, some,
  List, [], ◌∷◌, leb, if◌then◌else◌, arith, Bool-cases, inl, inr,
}
use meshtastic_matrix_relay.Text.{Text}
use meshtastic_matrix_relay.PyValue.{Fields}
use meshtastic_matrix_relay.Alerts.{
  Key, same_key, Formats, Post, Ledger, Monitor, has_key, raise_alert, lower_alert, update, send,
  clear, is_due, cooldown_seconds, notifies, alert_text, recovery_text,
}
use meshtastic_matrix_relay.Alerts.Samples.{Sample}
use meshtastic_matrix_relay.Alerts.Signals.{Status, quiet, alerting, level, status, react}
use meshtastic_matrix_relay.Alerts.Ledgers.{
  status-clear, status-raise_alert, status-lower_alert, same_key-≡,
}
use meshtastic_matrix_relay.Alerts.Calls.{is_dropped, run, run-Holds}

-- The last post about a key.
unfoldable pub newest : Key → List Post → Option Post
newest k [] = none
newest k (p ∷ ps) = if same_key p.about k then some p else newest k ps

-- The first post is an alert, a recovery follows an alert, and an alert follows a recovery or, at
-- least a cooldown later, an alert.
unfoldable pub follows : ℕ → Post → Option Post → Bool
follows cooldown p none = p.is_alert
follows cooldown p (some older) =
    if p.is_alert then not older.is_alert || leb (older.at + cooldown) p.at else older.is_alert

-- The posts about a key, the newest first, follow each other so.
unfoldable pub paced : ℕ → Key → List Post → Bool
unfolding follows newest
paced cooldown k [] = true
paced cooldown k (p ∷ ps) =
    (not (same_key p.about k) || follows cooldown p (newest k ps)) && paced cooldown k ps

-- The state that the last post tells.
unfoldable pub told : Option Post → Status
told none = quiet
told (some p) = if p.is_alert then alerting (some p.at) else quiet

abbrev alerts : ℕ → ℕ → Status → Bool
alerts cooldown now quiet = true
alerts cooldown now (alerting none) = true
alerts cooldown now (alerting (some last)) = leb (last + cooldown) now

abbrev is_alerting : Status → Bool
is_alerting quiet = false
is_alerting (alerting t) = true

abbrev alert_post : List Text → Key → ℕ → Text → Post
alert_post rooms j now message = record {
  about = j;
  is_alert = true;
  at = now;
  rooms = rooms;
  message = alert_text message;
}

abbrev recovery_post : List Text → Key → ℕ → Text → Post
recovery_post rooms j now message = record {
  about = j;
  is_alert = false;
  at = now;
  rooms = rooms;
  message = recovery_text message;
}

sent-raise_alert :
    (cooldown : ℕ) (rooms : List Text) (j : Key) (now : ℕ) (message : Text) (l : Ledger)
    → (raise_alert cooldown rooms j now message l).sent ≡ (
        if alerts cooldown now (status j l)
        then alert_post rooms j now message ∷ l.sent
        else l.sent)
unfolding raise_alert status send is_due
sent-raise_alert cooldown rooms j now message l = ground arith

sent-lower_alert :
    (rooms : List Text) (j : Key) (now : ℕ) (message : Text) (l : Ledger)
    → (lower_alert true rooms j now message l).sent
      ≡ (if is_alerting (status j l) then recovery_post rooms j now message ∷ l.sent else l.sent)
unfolding lower_alert status send clear
sent-lower_alert rooms j now message l = ground arith

module _ (cooldown : ℕ) (k : Key) where
  -- What is kept: the posts are paced, and the last one tells the state.
  pub record Told (st : Status) (ps : List Post) : Type 0 where
    pub state : st ≡ told (newest k ps)
    pub order : paced cooldown k ps ≡ true

  follows-alert :
      (p : Post) (older : Option Post)
      → p.is_alert ≡ true
      → alerts cooldown p.at (told older) ≡ true
      → follows cooldown p older ≡ true
  unfolding follows told
  follows-alert p none i h = i
  follows-alert p (some older) i h = ground arith

  follows-recovery :
      (p : Post) (older : Option Post)
      → p.is_alert ≡ false
      → is_alerting (told older) ≡ true
      → follows cooldown p older ≡ true
  unfolding follows told
  follows-recovery p none i h = absurd (ground arith)
  follows-recovery p (some older) i h = ground arith

  push-Told :
      (p : Post) (st : Status) (ps : List Post)
      → same_key p.about k ≡ false
      → Told st ps
      → Told st (p ∷ ps)
  unfolding newest paced
  push-Told p st ps n h = record { state = h.state ∙ ground arith; order = ground (arith, h.order) }

  push_alert-Told :
      (p : Post) (st : Status) (ps : List Post)
      → same_key p.about k ≡ true
      → p.is_alert ≡ true
      → alerts cooldown p.at st ≡ true
      → Told st ps
      → Told (alerting (some p.at)) (p ∷ ps)
  unfolding newest paced told
  push_alert-Told p st ps y i h t = record {
    state = ground arith;
    order = ground (
      arith,
      t.order,
      follows-alert p (newest k ps) i (subst (λ x. alerts cooldown p.at x ≡ true) t.state h),
    );
  }

  push_recovery-Told :
      (p : Post) (st : Status) (ps : List Post)
      → same_key p.about k ≡ true
      → p.is_alert ≡ false
      → is_alerting st ≡ true
      → Told st ps
      → Told quiet (p ∷ ps)
  unfolding newest paced told
  push_recovery-Told p st ps y i h t = record {
    state = ground arith;
    order = ground (
      arith,
      t.order,
      follows-recovery p (newest k ps) i (subst (λ x. is_alerting x ≡ true) t.state h),
    );
  }

  -- The ledger tells so.
  abbrev Kept : Ledger → Type 0
  Kept l = Told (status k l) l.sent

  react-alerts :
      (now : ℕ) (st : Status)
      → react cooldown (level true now) st
        ≡ (if alerts cooldown now st then alerting (some now) else st)
  unfolding react
  react-alerts now quiet = refl
  react-alerts now (alerting none) = refl
  react-alerts now (alerting (some last)) = refl

  quiet-not_alerting : (st : Status) → is_alerting st ≡ false → quiet ≡ st
  quiet-not_alerting quiet h = refl
  quiet-not_alerting (alerting t) h = absurd (ground arith)

  raise_alert-Kept :
      (rooms : List Text) (j : Key) (now : ℕ) (message : Text) (l : Ledger)
      → Kept l
      → Kept (raise_alert cooldown rooms j now message l)
  raise_alert-Kept rooms j now message l h =
      rw
        (
          status-raise_alert cooldown rooms j k now message l,
          sent-raise_alert cooldown rooms j now message l,
        )
        (elim (Bool-cases (same_key j k)) [
          | inl y ↦
              rw (y, react-alerts now (status k l), ap (λ x. status x l) (same_key-≡ j k y))
                (elim (Bool-cases (alerts cooldown now (status k l))) [
                  | inl due ↦ rw due (
                      push_alert-Told (alert_post rooms j now message) (status k l) l.sent y refl
                        due h)
                  | inr early ↦ rw early h
                ])
          | inr n ↦ rw n (elim (Bool-cases (alerts cooldown now (status j l))) [
            | inl due ↦ rw due (push-Told (alert_post rooms j now message) (status k l) l.sent n h)
            | inr early ↦ rw early h
          ])
        ])

  lower_alert-Kept :
      (rooms : List Text) (j : Key) (now : ℕ) (message : Text) (l : Ledger)
      → Kept l
      → Kept (lower_alert true rooms j now message l)
  unfolding react
  lower_alert-Kept rooms j now message l h =
      rw
        (
          status-lower_alert true rooms j k now cooldown message l,
          sent-lower_alert rooms j now message l,
        )
        (elim (Bool-cases (same_key j k)) [
          | inl y ↦
              rw (y, ap (λ x. status x l) (same_key-≡ j k y))
                (elim (Bool-cases (is_alerting (status k l))) [
                  | inl on ↦ rw on (
                      push_recovery-Told (recovery_post rooms j now message) (status k l) l.sent y
                        refl on h)
                  | inr off ↦ rw (off, quiet-not_alerting (status k l) off) h
                ])
          | inr n ↦ rw n (elim (Bool-cases (is_alerting (status j l))) [
            | inl on ↦ rw on (push-Told (recovery_post rooms j now message) (status k l) l.sent n h)
            | inr off ↦ rw off h
          ])
        ])

  clear-Kept : (j : Key) (l : Ledger) → same_key j k ≡ false → Kept l → Kept (clear j l)
  unfolding clear
  clear-Kept j l n h = subst (λ x. Told x l.sent) (sym (status-clear j k l ∙ ground arith)) h

-- The keys that no check clears.
other_key : (j k : Key) → is_dropped j ≡ true → is_dropped k ≡ false → same_key j k ≡ false
unfolding same_key
other_key j k p q = ground arith

module _ (formats : Formats) (settings : Fields) (k : Key) where
  update-Kept :
      notifies settings ≡ true
      → (rooms : List Text) (j : Key) (condition : Option Bool) (now : ℕ) (alert recovery : Text)
        (l : Ledger)
      → Kept (cooldown_seconds formats settings) k l
      → Kept
          (cooldown_seconds formats settings)
          k
          (update formats settings rooms j condition now alert recovery l)
  unfolding update
  update-Kept told_off rooms j none now alert recovery l h = h
  update-Kept told_off rooms j (some true) now alert recovery l h =
      raise_alert-Kept (cooldown_seconds formats settings) k rooms j now alert l h
  update-Kept told_off rooms j (some false) now alert recovery l h =
      rw told_off (lower_alert-Kept (cooldown_seconds formats settings) k rooms j now recovery l h)

  -- A new monitor.
  abbrev pub new : ℕ → Monitor
  new started = record {
    settings = settings;
    started_at = started;
    ledger = record { active = []; last_sent = []; sent = [] };
    last_mqtt_probe = 0;
    last_manual_suspend = false;
    connection_grace_until = 0;
  }

  new-Kept : (started : ℕ) → Kept (cooldown_seconds formats settings) k (new started).ledger
  unfolding status newest told paced has_key
  new-Kept started = record { state = refl; order = refl }

  -- Where recoveries are told, any run of checks of a new monitor sends, for the queue, the battery,
  -- the channel and the LoRa transmission, first an alert, a recovery just after an alert, and two
  -- alerts in a row only a cooldown apart.
  pub run-paced :
      notifies settings ≡ true
      → is_dropped k ≡ false
      → (started : ℕ) (samples : List Sample)
      → paced (cooldown_seconds formats settings) k (run formats samples (new started)).ledger.sent
        ≡ true
  run-paced told_off steady started samples =
      let (e, kept) =
        run-Holds formats settings (Kept (cooldown_seconds formats settings) k)
          (update-Kept told_off)
          (λ j l d. clear-Kept (cooldown_seconds formats settings) k j l (other_key j k d steady))
          samples (new started) (refl, new-Kept started) in
      kept.order
