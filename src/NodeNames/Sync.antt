-- ===== src/NodeNames/Sync.antt =====
-- `sync_name_tables_if_changed` and what it calls. Which of its transactions raise `sqlite3.Error`
-- is an argument; the chunks of a statement's parameters are not modelled.
use meshtastic_matrix_relay.Prelude.{
  Bool, true, false, ◌&&◌, not, Option, none, some, List, [], ◌∷◌, if◌then◌else◌, ℤ,
}
use meshtastic_matrix_relay.Text.{Text, text_eq, mem_text}
use meshtastic_matrix_relay.PyValue.{Fields, end, field}
use meshtastic_matrix_relay.NodeNames.{
  Entry, State, Names, Tables, put, pop, entry_of, sort_entries,
}
use meshtastic_matrix_relay.NodeNames.Snapshot.{Snapshot, collect}

-- `_SELECT_..NAME_BY_ID_SQL`
unfoldable pub name_at : Text → Names → Option (Option Text)
name_at id [] = none
name_at id ((j, n) ∷ t) = if text_eq j id then some n else name_at id t

-- `_UPSERT_..NAME_SQL`
unfoldable pub upsert_name : Text → Text → Names → Names
upsert_name id n [] = (id, some n) ∷ []
upsert_name id n ((j, m) ∷ t) =
    if text_eq j id then (j, some n) ∷ t else (j, m) ∷ upsert_name id n t

-- `_DELETE_STALE_ID_FROM_..NAMES_SQL`
unfoldable pub delete_name : Text → Names → Names
delete_name id [] = []
delete_name id ((j, m) ∷ t) =
    let rest = delete_name id t in if text_eq j id then rest else (j, m) ∷ rest

-- `_delete_stale_names_core`
unfoldable pub delete_stale : List Text → Names → Names
delete_stale ids [] = []
delete_stale ids ((j, m) ∷ t) =
    let rest = delete_stale ids t in if mem_text j ids then (j, m) ∷ rest else rest

-- One entry in the loop of `_sync`.
unfoldable pub write_name : Bool → Text → Option Text → Names → Names
write_name complete id none t = if complete then delete_name id t else t
write_name complete id (some n) t = upsert_name id n t

-- The loop of `_sync` on one table; `name` takes the entry's name in it.
unfoldable pub write_names : Bool → (Entry → Option Text) → State → Names → Names
write_names complete name [] t = t
write_names complete name (e ∷ s) t =
    write_names complete name s (write_name complete e.id (name e) t)

unfoldable pub sync_table : Bool → List Text → (Entry → Option Text) → State → Names → Names
sync_table complete ids name s t =
    if complete
    then delete_stale ids (write_names complete name s t)
    else write_names complete name s t

abbrev pub long_of : Entry → Option Text
long_of e = e.long_name

abbrev pub short_of : Entry → Option Text
short_of e = e.short_name

-- `_sync`
unfoldable pub sync_tables : State → List Text → Bool → Tables → Tables
sync_tables s ids complete t = record {
  longnames = sync_table complete ids long_of s t.longnames;
  shortnames = sync_table complete ids short_of s t.shortnames;
}

-- `_prune`
unfoldable pub prune_tables : List Text → Tables → Tables
prune_tables ids t = record {
  longnames = delete_stale ids t.longnames;
  shortnames = delete_stale ids t.shortnames;
}

-- `_normalize_node_name_value` of a row.
abbrev pub non_empty : Option Text → Option Text
non_empty none = none
non_empty (some []) = none
non_empty (some (c ∷ s)) = some (c ∷ s)

abbrev pub is_name : Text → Option Text → Bool
is_name n none = false
is_name n (some m) = text_eq n m

abbrev pub row_is : Text → Option (Option Text) → Bool
row_is n none = false
row_is n (some value) = is_name n (non_empty value)

abbrev pub name_matches : Option Text → Option (Option Text) → Bool
name_matches none row = true
name_matches (some n) row = row_is n row

-- `_name_table_matches_state`, of a table that was read.
unfoldable pub table_matches : (Entry → Option Text) → State → Names → Bool
table_matches name [] t = true
table_matches name (e ∷ s) t = name_matches (name e) (name_at e.id t) && table_matches name s t

-- Which transactions fail.
pub record Faults : Type 0 where
  pub prune : Bool
  pub read_long : Bool
  pub read_short : Bool
  pub sync : Bool

-- `_name_tables_match_state`: nothing is read for an empty state.
unfoldable pub tables_match : Faults → State → Tables → Bool
tables_match f [] t = true
tables_match f (e ∷ s) t =
    (not f.read_long && table_matches long_of (e ∷ s) t.longnames)
    && (not f.read_short && table_matches short_of (e ∷ s) t.shortnames)

abbrev pub same_name : Option Text → Option Text → Bool
same_name none none = true
same_name (some a) (some b) = text_eq a b
same_name _ _ = false

abbrev pub same_entry : Entry → Entry → Bool
same_entry d e =
    text_eq d.id e.id && (same_name d.long_name e.long_name && same_name d.short_name e.short_name)

unfoldable pub same_state : State → State → Bool
same_state [] [] = true
same_state (d ∷ s) (e ∷ u) = same_entry d e && same_state s u
same_state _ _ = false

abbrev pub or_else : Option Text → Option Text → Option Text
or_else none old = old
or_else (some n) old = some n

abbrev pub filled_from : Entry → Option Entry → Entry
filled_from e none = e
filled_from e (some old) = record e {
  long_name = or_else e.long_name old.long_name;
  short_name = or_else e.short_name old.short_name;
}

-- `{e.meshtastic_id: e for e in previous_state}`
unfoldable pub dict_of : State → State → State
dict_of [] d = d
dict_of (e ∷ s) d = dict_of s (put e d)

-- The loop over the current entries, and the previous ones that are left.
unfoldable pub merge_previous : State → State → State
merge_previous [] previous = previous
merge_previous (e ∷ s) previous =
    filled_from e (entry_of e.id previous) ∷ merge_previous s (pop e.id previous)

unfoldable pub current_state : Snapshot → Option State → State
current_state s none = s.by_id
current_state s (some previous) =
    if s.complete then s.by_id else sort_entries (merge_previous s.by_id (dict_of previous []))

abbrev pub is_empty_state : State → Bool
is_empty_state [] = true
is_empty_state (e ∷ s) = false

abbrev pub Outcome : Type 0
Outcome = Option State × Tables

-- `_sync_name_tables_atomic`, and what is returned after it.
unfoldable pub sync_or_keep : Faults → Option State → State → Snapshot → Tables → Outcome
sync_or_keep f previous state s t =
    if f.sync then (previous, t) else (some state, sync_tables state s.ids s.complete t)

unfoldable pub repair : Faults → Option State → State → Snapshot → Tables → Outcome
unfolding sync_or_keep
repair f previous state s t =
    if tables_match f state t then (some state, t) else sync_or_keep f previous state s t

-- The state is the previous one.
unfoldable pub settle : Faults → Option State → State → Snapshot → Tables → Outcome
unfolding repair
settle f previous state s t =
    if s.complete
    then (if f.prune then (previous, t) else repair f previous state s (prune_tables s.ids t))
    else repair f previous state s t

abbrev pub is_previous : State → Option State → Bool
is_previous state none = false
is_previous state (some previous) = same_state state previous

-- From the merged state on.
unfoldable pub sync_state : Faults → Option State → State → Snapshot → Tables → Outcome
unfolding settle sync_or_keep
sync_state f previous state s t =
    if not s.complete && is_empty_state state
    then (previous, t)
    else if is_previous state previous
    then settle f previous state s t
    else sync_or_keep f previous state s t

module _ (show_int : ℤ → Text) where
  unfoldable pub sync_nodes : Faults → Fields → Option State → Tables → Outcome
  unfolding current_state
  sync_nodes f nodes previous t =
      let s = collect show_int nodes in sync_state f previous (current_state s previous) s t

  -- `sync_name_tables_if_changed`; `none` is a snapshot that is None, or no dict.
  unfoldable pub sync_name_tables_if_changed :
      Faults → Option Fields → Option State → Tables → Outcome
  unfolding sync_nodes
  sync_name_tables_if_changed f none previous t = (previous, t)
  sync_name_tables_if_changed f (some end) previous t = (previous, t)
  sync_name_tables_if_changed f (some (field k v fs)) previous t =
      sync_nodes f (field k v fs) previous t
