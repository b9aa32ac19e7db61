-- ===== src/NodeNames/Keys.antt =====
-- The ids of a snapshot: the entries have distinct ones, all among those that were seen.
use meshtastic_matrix_relay.Prelude.{
  ◌≡◌, refl, Bool, true, false, ◌&&◌, ◌||◌, not, Option, none, some, List, [], ◌∷◌, ℤ, arith,
  if_rule, sym, ◌∙◌,
}
use meshtastic_matrix_relay.Text.{Text, codes, text_eq, mem_text}
use meshtastic_matrix_relay.Text.Laws.{text_eq_iff, text_eq_refl}
use meshtastic_matrix_relay.PyValue.{Value, null, dict, Fields, end, field, get, or_default}
use meshtastic_matrix_relay.NodeNames.{
  Entry, State, put, pop, entry_of, insert_entry, insert_all, sort_entries,
}
use meshtastic_matrix_relay.NodeNames.Snapshot.{
  Snapshot, Merged, merge, add_merged, add_beside, add_names, add_typed, add_user, collect_user,
  collect_node, collect_nodes, empty_snapshot, collect, key_of, spoil, note_types, sorted,
  is_conflict, resolved, is_nameless, is_id, name_of,
}
use meshtastic_matrix_relay.NodeNames.Rows.{has_id, is_keyed}

pub has_id-put :
    (j : Text) (e : Entry) (s : State) → has_id j (put e s) ≡ (text_eq e.id j || has_id j s)
unfolding put
has_id-put j e [] = refl
has_id-put j e (d ∷ s) =
    ground (arith, text_eq_iff d.id e.id, text_eq_iff d.id j, text_eq_iff e.id j, has_id-put j e s)

pub is_keyed-put : (e : Entry) (s : State) → is_keyed s ≡ true → is_keyed (put e s) ≡ true
unfolding put
is_keyed-put e [] h = refl
is_keyed-put e (d ∷ s) h =
    ground
      (arith, text_eq_iff d.id e.id, text_eq_iff e.id d.id, has_id-put d.id e s, is_keyed-put e s)

has_id-pop : (j id : Text) (s : State) → has_id j s ≡ false → has_id j (pop id s) ≡ false
unfolding pop
has_id-pop j id [] h = refl
has_id-pop j id (d ∷ s) h = ground (arith, has_id-pop j id s)

pub is_keyed-pop : (id : Text) (s : State) → is_keyed s ≡ true → is_keyed (pop id s) ≡ true
unfolding pop
is_keyed-pop id [] h = refl
is_keyed-pop id (d ∷ s) h = ground (arith, has_id-pop d.id id s, is_keyed-pop id s)

has_id-insert_entry :
    (j : Text) (e : Entry) (s : State)
    → has_id j (insert_entry e s) ≡ (text_eq e.id j || has_id j s)
unfolding insert_entry
has_id-insert_entry j e [] = refl
has_id-insert_entry j e (d ∷ s) = ground (arith, has_id-insert_entry j e s)

is_keyed-insert_entry :
    (e : Entry) (s : State)
    → has_id e.id s ≡ false
    → is_keyed s ≡ true
    → is_keyed (insert_entry e s) ≡ true
unfolding insert_entry
is_keyed-insert_entry e [] n h = refl
is_keyed-insert_entry e (d ∷ s) n h = ground (
  arith,
  text_eq_iff d.id e.id,
  text_eq_iff e.id d.id,
  has_id-insert_entry d.id e s,
  is_keyed-insert_entry e s,
)

-- No id of the one stands in the other.
abbrev is_apart : State → State → Bool
is_apart [] u = true
is_apart (e ∷ s) u = not (has_id e.id u) && is_apart s u

is_apart-insert_entry :
    (e : Entry) (s u : State)
    → has_id e.id s ≡ false
    → is_apart s u ≡ true
    → is_apart s (insert_entry e u) ≡ true
is_apart-insert_entry e [] u n h = refl
is_apart-insert_entry e (d ∷ s) u n h = ground (
  arith,
  text_eq_iff d.id e.id,
  text_eq_iff e.id d.id,
  has_id-insert_entry d.id e u,
  is_apart-insert_entry e s u,
)

is_apart-nil : (s : State) → is_apart s [] ≡ true
is_apart-nil [] = refl
is_apart-nil (e ∷ s) = is_apart-nil s

is_keyed-insert_all :
    (s u : State)
    → is_keyed s ≡ true
    → is_keyed u ≡ true
    → is_apart s u ≡ true
    → is_keyed (insert_all s u) ≡ true
unfolding insert_all
is_keyed-insert_all [] u h k a = k
is_keyed-insert_all (e ∷ s) u h k a =
    is_keyed-insert_all s (insert_entry e u) (ground arith)
      (is_keyed-insert_entry e u (ground arith) k)
      (is_apart-insert_entry e s u (ground arith) (ground arith))

pub is_keyed-sort_entries : (s : State) → is_keyed s ≡ true → is_keyed (sort_entries s) ≡ true
unfolding sort_entries
is_keyed-sort_entries s h = is_keyed-insert_all s [] h refl (is_apart-nil s)

has_id-insert_all :
    (j : Text) (s u : State) → has_id j (insert_all s u) ≡ (has_id j s || has_id j u)
unfolding insert_all
has_id-insert_all j [] u = refl
has_id-insert_all j (e ∷ s) u =
    ground (arith, has_id-insert_all j s (insert_entry e u), has_id-insert_entry j e u)

pub has_id-sort_entries : (j : Text) (s : State) → has_id j (sort_entries s) ≡ has_id j s
unfolding sort_entries
has_id-sort_entries j s = ground (arith, has_id-insert_all j s [])

-- The entries have distinct ids, and each was seen.
pub record IsCovered (s : Snapshot) : Type 0 where
  pub keyed : is_keyed s.by_id ≡ true
  pub seen : (j : Text) → has_id j s.by_id ≡ true → mem_text j s.ids ≡ true

put-IsCovered :
    (e : Entry) (s : Snapshot) (skipped : List Text) (complete : Bool)
    → mem_text e.id s.ids ≡ true
    → IsCovered s
    → IsCovered
        (record { by_id = put e s.by_id; ids = s.ids; skipped = skipped; complete = complete })
put-IsCovered e s skipped complete m c = record {
  keyed = is_keyed-put e s.by_id c.keyed;
  seen = λ j h. ground (arith, has_id-put j e s.by_id, text_eq_iff e.id j, c.seen j, m);
}

pop-IsCovered :
    (id : Text) (s : Snapshot) (skipped : List Text) (complete : Bool)
    → IsCovered s
    → IsCovered
        (record { by_id = pop id s.by_id; ids = s.ids; skipped = skipped; complete = complete })
pop-IsCovered id s skipped complete c = record {
  keyed = is_keyed-pop id s.by_id c.keyed;
  seen = λ j h. ground (arith, has_id-pop j id s.by_id, c.seen j);
}

add_merged-IsCovered :
    (id : Text) (long short : Merged) (s : Snapshot)
    → mem_text id s.ids ≡ true
    → IsCovered s
    → IsCovered (add_merged id long short s)
unfolding add_merged
add_merged-IsCovered id long short s m c =
    if_rule IsCovered (not (is_conflict long || is_conflict short))
      (λ _.
        put-IsCovered (record { id = id; long_name = resolved long; short_name = resolved short }) s
          s.skipped s.complete m c)
      (λ _.
        if_rule IsCovered (is_nameless (resolved long) (resolved short))
          (λ _. pop-IsCovered id s (id ∷ s.skipped) false c)
          (λ _.
            put-IsCovered
              (record { id = id; long_name = resolved long; short_name = resolved short }) s
              s.skipped false m c))

add_beside-IsCovered :
    (id : Text) (long short : Option Text) (s : Snapshot) (beside : Option Entry)
    → mem_text id s.ids ≡ true
    → IsCovered s
    → IsCovered (add_beside id long short s beside)
unfolding add_beside
add_beside-IsCovered id long short s none m c =
    put-IsCovered (record { id = id; long_name = long; short_name = short }) s s.skipped s.complete
      m c
add_beside-IsCovered id long short s (some e) m c =
    add_merged-IsCovered id (merge e.long_name long) (merge e.short_name short) s m c

see-IsCovered :
    (id : Text) (s : Snapshot) (complete : Bool)
    → IsCovered s
    → IsCovered
        (record { by_id = s.by_id; ids = id ∷ s.ids; skipped = s.skipped; complete = complete })
unfolding mem_text
see-IsCovered id s complete c = record { keyed = c.keyed; seen = λ j h. ground (arith, c.seen j) }

add_typed-IsCovered :
    (id : Text) (long short : Option Text × Bool) (s : Snapshot)
    → IsCovered s
    → IsCovered (add_typed id long short s)
unfolding add_typed note_types add_names mem_text
add_typed-IsCovered id (long, long_ok) (short, short_ok) s c =
    let seen : Snapshot = record s {
      ids = id ∷ s.ids;
      complete = s.complete && (long_ok && short_ok);
    } in
    add_beside-IsCovered id long short seen (entry_of id s.by_id) (ground (arith, text_eq_refl id))
      (see-IsCovered id s (s.complete && (long_ok && short_ok)) c)

spoil-IsCovered : (s : Snapshot) → IsCovered s → IsCovered (spoil s)
unfolding spoil
spoil-IsCovered s c = record { keyed = c.keyed; seen = c.seen }

module _ (show_int : ℤ → Text) where
  add_user-IsCovered :
      (id : Value) (user : Fields) (s : Snapshot)
      → IsCovered s
      → IsCovered (add_user show_int id user s)
  unfolding add_user
  add_user-IsCovered id user s c =
      if_rule IsCovered (mem_text (key_of show_int id) s.skipped) (λ _. c)
        (λ _.
          add_typed-IsCovered (key_of show_int id)
            (name_of (or_default (get user (codes "longName")) null))
            (name_of (or_default (get user (codes "shortName")) null)) s c)

  collect_user-IsCovered :
      (user : Option Value) (s : Snapshot) → IsCovered s → IsCovered (collect_user show_int user s)
  unfolding collect_user
  collect_user-IsCovered (some (dict user)) s c =
      if_rule IsCovered (is_id (or_default (get user (codes "id")) null))
        (λ _. add_user-IsCovered (or_default (get user (codes "id")) null) user s c)
        (λ _. spoil-IsCovered s c)
  collect_user-IsCovered _ s c = spoil-IsCovered s c

  collect_node-IsCovered :
      (node : Value) (s : Snapshot) → IsCovered s → IsCovered (collect_node show_int node s)
  unfolding collect_node
  collect_node-IsCovered (dict node) s c = collect_user-IsCovered (get node (codes "user")) s c
  collect_node-IsCovered _ s c = spoil-IsCovered s c

  collect_nodes-IsCovered :
      (nodes : Fields) (s : Snapshot) → IsCovered s → IsCovered (collect_nodes show_int nodes s)
  unfolding collect_nodes
  collect_nodes-IsCovered end s c = c
  collect_nodes-IsCovered (field k v fs) s c =
      collect_nodes-IsCovered fs (collect_node show_int v s) (collect_node-IsCovered v s c)

  pub collect-IsCovered : (nodes : Fields) → IsCovered (collect show_int nodes)
  unfolding collect sorted
  collect-IsCovered nodes =
      let c =
        collect_nodes-IsCovered nodes empty_snapshot
          (record { keyed = refl; seen = λ j h. absurd (ground arith) }) in
      record {
        keyed = is_keyed-sort_entries (collect_nodes show_int nodes empty_snapshot).by_id c.keyed;
        seen = λ j h.
            c.seen j
              (sym (has_id-sort_entries j (collect_nodes show_int nodes empty_snapshot).by_id) ∙ h);
      }
