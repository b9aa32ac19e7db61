-- ===== src/NodeNames/Partial.antt =====
-- An incomplete snapshot deletes no name.
use meshtastic_matrix_relay.Prelude.{
  ◌≡◌, sym, subst, Bool, true, false, ◌&&◌, not, Option, none, some, [], ◌∷◌, ℤ, arith, if_rule,
}
use meshtastic_matrix_relay.Text.{Text}
use meshtastic_matrix_relay.PyValue.{Fields, field, Value}
use meshtastic_matrix_relay.NodeNames.{Entry, State, Names, Tables}
use meshtastic_matrix_relay.NodeNames.Snapshot.{Snapshot, collect}
use meshtastic_matrix_relay.NodeNames.Sync.{
  name_at, write_name, write_names, sync_table, long_of, short_of, sync_tables, Faults,
  tables_match, current_state, Outcome, sync_or_keep, repair, settle, is_previous, is_empty_state,
  sync_state, sync_nodes, sync_name_tables_if_changed,
}
use meshtastic_matrix_relay.NodeNames.Rows.{name_at-upsert_name}

abbrev is_some : Option (Option Text) → Bool
is_some none = false
is_some (some name) = true

abbrev pub has_row : Text → Names → Bool
has_row j t = is_some (name_at j t)

write_name-has_row :
    (j id : Text) (name : Option Text) (t : Names)
    → has_row j t ≡ true
    → has_row j (write_name false id name t) ≡ true
unfolding write_name
write_name-has_row j id none t h = h
write_name-has_row j id (some n) t h = ground (arith, name_at-upsert_name j id n t)

write_names-has_row :
    (name : Entry → Option Text) (j : Text) (s : State) (t : Names)
    → has_row j t ≡ true
    → has_row j (write_names false name s t) ≡ true
unfolding write_names
write_names-has_row name j [] t h = h
write_names-has_row name j (e ∷ s) t h =
    write_names-has_row name j s (write_name false e.id (name e) t)
      (write_name-has_row j e.id (name e) t h)

-- Every row of the tables is still there.
abbrev pub Keeps : Tables → Outcome → Type 0
Keeps t (answer, after) =
    (j : Text)
    → (has_row j t.longnames ≡ true → has_row j after.longnames ≡ true)
      × (has_row j t.shortnames ≡ true → has_row j after.shortnames ≡ true)

same-Keeps : (answer : Option State) (t : Tables) → Keeps t (answer, t)
same-Keeps answer t j = ((λ h. h), (λ h. h))

sync_or_keep-Keeps :
    (f : Faults) (previous : Option State) (state : State) (s : Snapshot) (t : Tables)
    → s.complete ≡ false
    → Keeps t (sync_or_keep f previous state s t)
unfolding sync_or_keep sync_tables sync_table
sync_or_keep-Keeps f previous state s t partial =
    if_rule (Keeps t) f.sync (λ _. same-Keeps previous t)
      (λ _.
        subst (λ b. Keeps t (some state, sync_tables state s.ids b t)) (sym partial)
          (λ j. (
            write_names-has_row long_of j state t.longnames,
            write_names-has_row short_of j state t.shortnames,
          )))

repair-Keeps :
    (f : Faults) (previous : Option State) (state : State) (s : Snapshot) (t : Tables)
    → s.complete ≡ false
    → Keeps t (repair f previous state s t)
unfolding repair
repair-Keeps f previous state s t partial =
    if_rule (Keeps t) (tables_match f state t) (λ _. same-Keeps (some state) t)
      (λ _. sync_or_keep-Keeps f previous state s t partial)

settle-Keeps :
    (f : Faults) (previous : Option State) (state : State) (s : Snapshot) (t : Tables)
    → s.complete ≡ false
    → Keeps t (settle f previous state s t)
unfolding settle
settle-Keeps f previous state s t partial =
    if_rule (Keeps t) s.complete (λ complete. absurd (ground arith))
      (λ _. repair-Keeps f previous state s t partial)

sync_state-Keeps :
    (f : Faults) (previous : Option State) (state : State) (s : Snapshot) (t : Tables)
    → s.complete ≡ false
    → Keeps t (sync_state f previous state s t)
unfolding sync_state
sync_state-Keeps f previous state s t partial =
    if_rule (Keeps t) (not s.complete && is_empty_state state) (λ _. same-Keeps previous t)
      (λ _.
        if_rule (Keeps t) (is_previous state previous)
          (λ _. settle-Keeps f previous state s t partial)
          (λ _. sync_or_keep-Keeps f previous state s t partial))

module _ (show_int : ℤ → Text) where
  -- A sync of an incomplete snapshot deletes no row of either table, whatever state came before and
  -- whichever transactions fail.
  pub sync_name_tables_if_changed-Keeps :
      (f : Faults) (k : Text) (v : Value) (fs : Fields) (previous : Option State) (t : Tables)
      → (collect show_int (field k v fs)).complete ≡ false
      → Keeps t (sync_name_tables_if_changed show_int f (some (field k v fs)) previous t)
  unfolding sync_name_tables_if_changed sync_nodes
  sync_name_tables_if_changed-Keeps f k v fs previous t partial =
      sync_state-Keeps f previous (current_state (collect show_int (field k v fs)) previous)
        (collect show_int (field k v fs)) t partial
