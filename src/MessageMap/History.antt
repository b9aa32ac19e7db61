-- ===== src/MessageMap/History.antt =====
-- What is looked up is what was stored last: nothing stale comes back, whatever was pruned or wiped.
use meshtastic_matrix_relay.Prelude.{
  ℕ, zero, suc, ◌≡◌, refl, Bool, true, false, ◌&&◌, ◌||◌, not, Option, none, some, List, [], ◌∷◌,
  length, drop, if◌then◌else◌, ℤ, arith,
}
use meshtastic_matrix_relay.Text.{Text, text_eq}
use meshtastic_matrix_relay.Text.Laws.{text_eq_iff}
use meshtastic_matrix_relay.MessageMap.{
  Row, Table, upsert, find_event, prune_core, surplus, store_message_map, prune_message_map,
  wipe_message_map,
}

abbrev pub has_event : Text → Table → Bool
has_event e [] = false
has_event e (s ∷ t) = text_eq s.event_id e || has_event e t

-- The event's id is a key.
abbrev pub is_keyed : Table → Bool
is_keyed [] = true
is_keyed (s ∷ t) = not (has_event s.event_id t) && is_keyed t

pub has_event-upsert :
    (e : Text) (r : Row) (t : Table)
    → has_event e (upsert r t) ≡ (text_eq r.event_id e || has_event e t)
unfolding upsert
has_event-upsert e r [] = refl
has_event-upsert e r (s ∷ t) = ground (
  arith,
  text_eq_iff s.event_id r.event_id,
  text_eq_iff s.event_id e,
  text_eq_iff r.event_id e,
  has_event-upsert e r t,
)

pub is_keyed-upsert : (r : Row) (t : Table) → is_keyed t ≡ true → is_keyed (upsert r t) ≡ true
unfolding upsert
is_keyed-upsert r [] h = refl
is_keyed-upsert r (s ∷ t) h = ground (
  arith,
  text_eq_iff s.event_id r.event_id,
  text_eq_iff r.event_id s.event_id,
  has_event-upsert s.event_id r t,
  is_keyed-upsert r t,
)

pub find_event-upsert :
    (e : Text) (r : Row) (t : Table)
    → find_event e (upsert r t) ≡ (if text_eq r.event_id e then some r else find_event e t)
unfolding upsert find_event
find_event-upsert e r [] = refl
find_event-upsert e r (s ∷ t) = ground (
  arith,
  text_eq_iff s.event_id r.event_id,
  text_eq_iff s.event_id e,
  text_eq_iff r.event_id e,
  find_event-upsert e r t,
)

pub find_event-none : (e : Text) (t : Table) → has_event e t ≡ false → find_event e t ≡ none
unfolding find_event
find_event-none e [] h = refl
find_event-none e (s ∷ t) h = ground (arith, find_event-none e t)

has_event-drop :
    (e : Text) (n : ℕ) (t : Table) → has_event e t ≡ false → has_event e (drop n t) ≡ false
has_event-drop e zero t h = h
has_event-drop e (suc n) [] h = refl
has_event-drop e (suc n) (s ∷ t) h = has_event-drop e n t (ground arith)

pub is_keyed-drop : (n : ℕ) (t : Table) → is_keyed t ≡ true → is_keyed (drop n t) ≡ true
is_keyed-drop zero t h = h
is_keyed-drop (suc n) [] h = refl
is_keyed-drop (suc n) (s ∷ t) h = is_keyed-drop n t (ground arith)

-- What is found after the oldest rows have gone was found before.
find_event-drop :
    (e : Text) (n : ℕ) (t : Table) (r : Row)
    → is_keyed t ≡ true
    → find_event e (drop n t) ≡ some r
    → find_event e t ≡ some r
unfolding find_event
find_event-drop e zero t r k h = h
find_event-drop e (suc n) [] r k h = h
find_event-drop e (suc n) (s ∷ t) r k h =
    ground (
      arith,
      text_eq_iff s.event_id e,
      find_event-drop e n t r (ground arith) h,
      find_event-none e t,
    )

-- The calls on the table, and whether each fails.
pub data Call : Type 0 where
  stores : Bool → Row → Call
  prunes : Bool → ℤ → Call
  wipes : Bool → Call

abbrev pub apply : Call → Table → Table
apply (stores fails r) t = store_message_map fails r t
apply (prunes fails keep) t = prune_message_map fails keep t
apply (wipes fails) t = wipe_message_map fails t

-- The calls, the last one first.
abbrev pub run : List Call → Table
run [] = []
run (c ∷ calls) = apply c (run calls)

-- What was stored for the event last.
abbrev pub last_stored : Text → List Call → Option Row
last_stored e [] = none
last_stored e (stores fails r ∷ calls) =
    if not fails && text_eq r.event_id e then some r else last_stored e calls
last_stored e (prunes fails keep ∷ calls) = last_stored e calls
last_stored e (wipes fails ∷ calls) = last_stored e calls

apply-is_keyed : (c : Call) (t : Table) → is_keyed t ≡ true → is_keyed (apply c t) ≡ true
unfolding store_message_map prune_message_map wipe_message_map prune_core
apply-is_keyed (stores fails r) t h = ground (arith, is_keyed-upsert r t)
apply-is_keyed (prunes fails keep) t h = ground (arith, is_keyed-drop (surplus (length t) keep) t)
apply-is_keyed (wipes fails) t h = ground arith

pub run-is_keyed : (calls : List Call) → is_keyed (run calls) ≡ true
run-is_keyed [] = refl
run-is_keyed (c ∷ calls) = apply-is_keyed c (run calls) (run-is_keyed calls)

find_event-last :
    (e : Text) (r : Row) (calls : List Call)
    → find_event e (run calls) ≡ some r
    → last_stored e calls ≡ some r
unfolding store_message_map prune_message_map wipe_message_map prune_core find_event
find_event-last e r [] h = ground arith
find_event-last e r (stores fails s ∷ calls) h =
    ground (arith, find_event-upsert e s (run calls), find_event-last e r calls)
find_event-last e r (prunes fails keep ∷ calls) h = ground (
  arith,
  find_event-drop e (surplus (length (run calls)) keep) (run calls) r (run-is_keyed calls),
  find_event-last e r calls,
)
find_event-last e r (wipes fails ∷ calls) h = ground (arith, find_event-last e r calls)

-- After any calls, failed ones included, no two rows have the same event, and a lookup by event
-- that finds a row finds the one that was stored for the event last.
pub find_event-run :
    (e : Text) (r : Row) (calls : List Call)
    → find_event e (run calls) ≡ some r
    → (last_stored e calls ≡ some r) × (is_keyed (run calls) ≡ true)
find_event-run e r calls h = (find_event-last e r calls h, run-is_keyed calls)
