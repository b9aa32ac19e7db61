-- ===== src/NodeNames/Convergence.antt =====
-- A complete snapshot settles both tables, whatever they held and whatever was synced before.
use meshtastic_matrix_relay.Prelude.{
  ◌≡◌, refl, sym, true, false, ◌&&◌, not, Option, none, some, List, [], ◌∷◌, ℤ, arith, if_rule,
  subst,
}
use meshtastic_matrix_relay.Text.{Text, mem_text}
use meshtastic_matrix_relay.Text.Laws.{text_eq_iff}
use meshtastic_matrix_relay.PyValue.{Value, Fields, field}
use meshtastic_matrix_relay.NodeNames.{Entry, State, Names, Tables, entry_of}
use meshtastic_matrix_relay.NodeNames.Snapshot.{Snapshot, collect}
use meshtastic_matrix_relay.NodeNames.Sync.{
  name_at, delete_stale, sync_table, long_of, short_of, sync_tables, prune_tables, row_is,
  name_matches, table_matches, Faults, tables_match, current_state, Outcome, sync_or_keep, repair,
  settle, is_previous, is_empty_state, sync_state, sync_nodes, sync_name_tables_if_changed,
}
use meshtastic_matrix_relay.NodeNames.Rows.{has_id, name_at-delete_stale, name_at-sync_table}
use meshtastic_matrix_relay.NodeNames.Keys.{IsCovered, collect-IsCovered}

-- A table that tells the names of the state, and nothing of nodes that were not seen.
pub record Tells (ids : List Text) (name : Entry → Option Text) (s : State) (t : Names)
    : Type 0 where
  pub gone : (j : Text) → mem_text j ids ≡ false → name_at j t ≡ none
  pub told :
      (j n : Text) (e : Entry)
      → entry_of j s ≡ some e
      → name e ≡ some n
      → name_at j t ≡ some (some n)

has_id-entry_of : (j : Text) (s : State) (e : Entry) → entry_of j s ≡ some e → has_id j s ≡ true
unfolding entry_of
has_id-entry_of j [] e h = ground arith
has_id-entry_of j (d ∷ s) e h = ground (arith, has_id-entry_of j s e)

sync_table-Tells :
    (name : Entry → Option Text) (s : Snapshot) (t : Names)
    → IsCovered s
    → Tells s.ids name s.by_id (sync_table true s.ids name s.by_id t)
sync_table-Tells name s t c = record {
  gone = λ j m. ground (arith, m, name_at-sync_table true s.ids name s.by_id j t c.keyed);
  told = λ j n e h named. ground (
    arith,
    name_at-sync_table true s.ids name s.by_id j t c.keyed,
    h,
    named,
    c.seen j (has_id-entry_of j s.by_id e h),
  );
}

row_is-some : (n : Text) (row : Option (Option Text)) → row_is n row ≡ true → row ≡ some (some n)
row_is-some n none h = ground arith
row_is-some n (some none) h = ground arith
row_is-some n (some (some [])) h = ground arith
row_is-some n (some (some (c ∷ s))) h = ground (arith, text_eq_iff n (c ∷ s))

entry_matches :
    (n : Text) (e : Entry) (name : Entry → Option Text) (row : Option (Option Text))
    → name_matches (name e) row ≡ true
    → name e ≡ some n
    → row ≡ some (some n)
entry_matches n e name row h named =
    row_is-some n row (subst (λ o. name_matches o row ≡ true) named h)

table_matches-told :
    (name : Entry → Option Text) (s : State) (t : Names) (j n : Text) (e : Entry)
    → table_matches name s t ≡ true
    → entry_of j s ≡ some e
    → name e ≡ some n
    → name_at j t ≡ some (some n)
unfolding table_matches entry_of
table_matches-told name [] t j n e m h named = ground arith
table_matches-told name (d ∷ s) t j n e m h named = ground (
  arith,
  table_matches-told name s t j n e,
  text_eq_iff d.id j,
  entry_matches n d name (name_at d.id t),
)

delete_stale-Tells :
    (name : Entry → Option Text) (ids : List Text) (s : State) (t : Names)
    → table_matches name s (delete_stale ids t) ≡ true
    → Tells ids name s (delete_stale ids t)
delete_stale-Tells name ids s t m = record {
  gone = λ j g. ground (arith, name_at-delete_stale j ids t);
  told = λ j n e h named. table_matches-told name s (delete_stale ids t) j n e m h named;
}

-- No transaction fails.
abbrev pub no_faults : Faults
no_faults = record { prune = false; read_long = false; read_short = false; sync = false }

-- The state of the snapshot is the answer, and both tables tell it.
abbrev pub Settled : Snapshot → Outcome → Type 0
Settled s (answer, t) =
    (answer ≡ some s.by_id)
    × Tells s.ids long_of s.by_id t.longnames
    × Tells s.ids short_of s.by_id t.shortnames

synced-Settled :
    (s : Snapshot) (previous : Option State) (t : Tables)
    → IsCovered s
    → s.complete ≡ true
    → Settled s (sync_or_keep no_faults previous s.by_id s t)
unfolding sync_or_keep sync_tables
synced-Settled s previous t c complete =
    subst
      (λ b. Settled s (
        some s.by_id,
        record {
          longnames = sync_table b s.ids long_of s.by_id t.longnames;
          shortnames = sync_table b s.ids short_of s.by_id t.shortnames;
        },
      ))
      (sym complete)
      (refl, sync_table-Tells long_of s t.longnames c, sync_table-Tells short_of s t.shortnames c)

tables_match-both :
    (s : State) (t : Tables)
    → tables_match no_faults s t ≡ true
    → (table_matches long_of s t.longnames ≡ true) × (table_matches short_of s t.shortnames ≡ true)
unfolding tables_match table_matches
tables_match-both [] t h = (refl, refl)
tables_match-both (e ∷ s) t h = (ground arith, ground arith)

pruned-Settled :
    (s : Snapshot) (t : Tables)
    → tables_match no_faults s.by_id (prune_tables s.ids t) ≡ true
    → Settled s (some s.by_id, prune_tables s.ids t)
unfolding prune_tables
pruned-Settled s t m =
    let (long, short) = tables_match-both s.by_id (prune_tables s.ids t) m in
    (
      refl,
      delete_stale-Tells long_of s.ids s.by_id t.longnames long,
      delete_stale-Tells short_of s.ids s.by_id t.shortnames short,
    )

settle-Settled :
    (s : Snapshot) (previous : Option State) (t : Tables)
    → IsCovered s
    → s.complete ≡ true
    → Settled s (settle no_faults previous s.by_id s t)
unfolding settle repair
settle-Settled s previous t c complete =
    if_rule (Settled s) s.complete
      (λ _.
        if_rule (Settled s) (tables_match no_faults s.by_id (prune_tables s.ids t))
          (λ m. pruned-Settled s t m)
          (λ _. synced-Settled s previous (prune_tables s.ids t) c complete))
      (λ partial. absurd (ground arith))

sync_state-Settled :
    (s : Snapshot) (previous : Option State) (t : Tables)
    → IsCovered s
    → s.complete ≡ true
    → Settled s (sync_state no_faults previous s.by_id s t)
unfolding sync_state
sync_state-Settled s previous t c complete =
    if_rule (Settled s) (not s.complete && is_empty_state s.by_id)
      (λ partial. absurd (ground arith))
      (λ _.
        if_rule (Settled s) (is_previous s.by_id previous)
          (λ _. settle-Settled s previous t c complete)
          (λ _. synced-Settled s previous t c complete))

current_state-complete :
    (s : Snapshot) (previous : Option State)
    → s.complete ≡ true
    → current_state s previous ≡ s.by_id
unfolding current_state
current_state-complete s none h = refl
current_state-complete s (some previous) h = ground arith

module _ (show_int : ℤ → Text) where
  -- A complete snapshot of at least one node, synced with no failure, settles the matter, whatever
  -- the tables held and whatever state came before: the answer is the snapshot's state, each name of
  -- an entry stands in its table, and no row is left of an id that was not seen.
  pub sync_name_tables_if_changed-Settled :
      (k : Text) (v : Value) (fs : Fields) (previous : Option State) (t : Tables)
      → (collect show_int (field k v fs)).complete ≡ true
      → Settled
          (collect show_int (field k v fs))
          (sync_name_tables_if_changed show_int no_faults (some (field k v fs)) previous t)
  unfolding sync_name_tables_if_changed sync_nodes
  sync_name_tables_if_changed-Settled k v fs previous t complete =
      let s = collect show_int (field k v fs) in
      subst (λ state. Settled s (sync_state no_faults previous state s t))
        (sym (current_state-complete s previous complete))
        (sync_state-Settled s previous t (collect-IsCovered show_int (field k v fs)) complete)
