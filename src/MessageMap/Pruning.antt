-- ===== src/MessageMap/Pruning.antt =====
-- How long a mapping is kept: `_handle_message_mapping` stores a row and drops the oldest ones.
use meshtastic_matrix_relay.Prelude.{
  ℕ, zero, suc, ◌-◌, ◌≤◌, ◌<◌, ◌≡◌, refl, sym, ap, subst, true, false, some, [], ◌∷◌, ◌++◌, length,
  drop, if◌then◌else◌, pos, arith, length-append, length-drop, if_rule,
}
use meshtastic_matrix_relay.Text.{Text}
use meshtastic_matrix_relay.Text.Laws.{text_eq_iff, text_eq_refl}
use meshtastic_matrix_relay.PyValue.{Value}
use meshtastic_matrix_relay.MessageMap.{
  Row, Table, Mapping, upsert, find_event, prune_core, surplus, store_message_map,
  prune_message_map, row_of, is_filled, handle_message_mapping,
}
use meshtastic_matrix_relay.MessageMap.History.{has_event, find_event-upsert}

upsert-new : (r : Row) (t : Table) → has_event r.event_id t ≡ false → upsert r t ≡ t ++ r ∷ []
unfolding upsert
upsert-new r [] h = refl
upsert-new r (s ∷ t) h = ground (arith, upsert-new r t)

length-upsert :
    (r : Row) (t : Table)
    → length (upsert r t) ≡ (if has_event r.event_id t then length t else suc (length t))
unfolding upsert
length-upsert r [] = refl
length-upsert r (s ∷ t) = ground (arith, length-upsert r t)

drop-append :
    (n : ℕ) (t : Table) (r : Row) → n ≤ length t → drop n (t ++ r ∷ []) ≡ drop n t ++ r ∷ []
drop-append zero t r h = refl
drop-append (suc n) [] r h = elim h [ ]
drop-append (suc n) (s ∷ t) r h = drop-append n t r (omega arith)

find_event-append_self :
    (e : Text) (t : Table) (r : Row)
    → has_event e t ≡ false
    → r.event_id ≡ e
    → find_event e (t ++ r ∷ []) ≡ some r
unfolding find_event
find_event-append_self e [] r h q = ground (arith, text_eq_iff r.event_id e)
find_event-append_self e (s ∷ t) r h q =
    ground (arith, find_event-append_self e t r (ground arith) q)

has_event-drop :
    (e : Text) (n : ℕ) (t : Table) → has_event e t ≡ false → has_event e (drop n t) ≡ false
has_event-drop e zero t h = h
has_event-drop e (suc n) [] h = refl
has_event-drop e (suc n) (s ∷ t) h = has_event-drop e n t (ground arith)

surplus-sub : (n keep : ℕ) → surplus n (pos keep) ≡ n - keep
unfolding surplus
surplus-sub n keep = ground arith

-- The room that a new row needs is made at the old end of the table.
abbrev pub kept : ℕ → Row → Table → Table
kept keep r t =
    if has_event r.event_id t then upsert r t else drop (suc (length t) - keep) t ++ r ∷ []

prune-known :
    (keep : ℕ) (r : Row) (t : Table)
    → length t ≤ keep
    → has_event r.event_id t ≡ true
    → (prune_core (pos keep) (upsert r t)).0 ≡ upsert r t
unfolding prune_core
prune-known keep r t h known =
    let none_over : surplus (length (upsert r t)) (pos keep) ≡ 0 =
      ground (arith, surplus-sub (length (upsert r t)) keep, length-upsert r t) in
    ap (λ n. drop n (upsert r t)) none_over

prune-new :
    (keep : ℕ) (r : Row) (t : Table)
    → 0 < keep
    → has_event r.event_id t ≡ false
    → (prune_core (pos keep) (upsert r t)).0 ≡ drop (suc (length t) - keep) t ++ r ∷ []
unfolding prune_core
prune-new keep r t k new =
    let over : surplus (length (upsert r t)) (pos keep) ≡ suc (length t) - keep =
      ground (arith, surplus-sub (length (upsert r t)) keep, length-upsert r t) in
    rw (over, upsert-new r t new) (drop-append (suc (length t) - keep) t r (omega arith))

prune-upsert :
    (keep : ℕ) (r : Row) (t : Table)
    → 0 < keep
    → length t ≤ keep
    → (prune_core (pos keep) (upsert r t)).0 ≡ kept keep r t
prune-upsert keep r t k h =
    if_rule (λ u. (prune_core (pos keep) (upsert r t)).0 ≡ u) (has_event r.event_id t)
      (prune-known keep r t h) (prune-new keep r t k)

find_event-kept : (keep : ℕ) (r : Row) (t : Table) → find_event r.event_id (kept keep r t) ≡ some r
find_event-kept keep r t =
    if_rule (λ u. find_event r.event_id u ≡ some r) (has_event r.event_id t)
      (λ _. ground (arith, find_event-upsert r.event_id r t, text_eq_refl r.event_id))
      (λ new.
        find_event-append_self r.event_id (drop (suc (length t) - keep) t) r
          (has_event-drop r.event_id (suc (length t) - keep) t new) refl)

length-kept :
    (keep : ℕ) (r : Row) (t : Table) → 0 < keep → length t ≤ keep → length (kept keep r t) ≤ keep
length-kept keep r t k h =
    if_rule (λ u. length u ≤ keep) (has_event r.event_id t)
      (λ known. ground (arith, length-upsert r t))
      (λ new. omega (
        arith,
        length-append (drop (suc (length t) - keep) t) (r ∷ []),
        length-drop (suc (length t) - keep) t,
      ))

module _ (show : Value → Text) where
  -- A filled mapping that is stored, without a failure, into a table of at most `msgs_to_keep` rows,
  -- where that is positive: its event is found with just that row, the table has at most `msgs_to_keep` rows again, a row
  -- for a known event is replaced in place, and a new one takes the room of the oldest rows.
  pub find_event-handle_message_mapping :
      (id : Value) (info : Mapping) (keep : ℕ) (t : Table)
      → info.msgs_to_keep ≡ pos keep
      → 0 < keep
      → length t ≤ keep
      → is_filled info.matrix_event_id ≡ true
      → is_filled info.room_id ≡ true
      → is_filled info.text ≡ true
      → let after = handle_message_mapping show false false id info t in
        (after ≡ kept keep (row_of show id info) t)
        × (find_event info.matrix_event_id after ≡ some (row_of show id info))
        × (length after ≤ keep)
  unfolding handle_message_mapping store_message_map prune_message_map
  find_event-handle_message_mapping id info keep t e k h event room text =
      let stored : handle_message_mapping show false false id info t
          ≡ kept keep (row_of show id info) t =
        ground (arith, e, event, room, text, prune-upsert keep (row_of show id info) t k h) in
      (
        stored,
        subst (λ u. find_event info.matrix_event_id u ≡ some (row_of show id info)) (sym stored)
            (find_event-kept keep (row_of show id info) t),
        subst (λ u. length u ≤ keep) (sym stored) (length-kept keep (row_of show id info) t k h),
      )
