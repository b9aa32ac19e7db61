-- ===== src/NodeNames/Snapshot.antt =====
-- `_collect_node_name_snapshot`: the names in a snapshot of the nodes, and whether it is complete.
use meshtastic_matrix_relay.Prelude.{
  Bool, true, false, ◌&&◌, ◌||◌, not, Option, none, some, List, [], ◌∷◌, if◌then◌else◌, ℤ,
}
use meshtastic_matrix_relay.Text.{Text, codes, text_eq, mem_text}
use meshtastic_matrix_relay.PyValue.{
  Value, null, int, str, dict, Fields, end, field, get, or_default,
}
use meshtastic_matrix_relay.NodeIdentity.{normalize_node_id}
use meshtastic_matrix_relay.NodeNames.{Entry, State, put, pop, entry_of, sort_entries}

-- The state of the loop; `ids` and `skipped` are sets.
pub record Snapshot : Type 0 where
  pub by_id : State
  pub ids : List Text
  pub skipped : List Text
  pub complete : Bool

-- A name, and whether its value is None or a string: `_normalize_node_name_value`.
abbrev pub name_of : Value → Option Text × Bool
name_of null = (none, true)
name_of (str []) = (none, true)
name_of (str (c ∷ s)) = (some (c ∷ s), true)
name_of _ = (none, false)

pub data Merged : Type 0 where
  merged : Option Text → Merged
  conflict : Merged

-- `_merge_node_name_values`
abbrev pub merge : Option Text → Option Text → Merged
merge none incoming = merged incoming
merge (some a) none = merged (some a)
merge (some a) (some b) = if text_eq a b then merged (some a) else conflict

abbrev pub is_conflict : Merged → Bool
is_conflict (merged name) = false
is_conflict conflict = true

abbrev pub resolved : Merged → Option Text
resolved (merged name) = name
resolved conflict = none

abbrev pub is_nameless : Option Text → Option Text → Bool
is_nameless none none = true
is_nameless _ _ = false

unfoldable pub add_merged : Text → Merged → Merged → Snapshot → Snapshot
add_merged id long short s =
    if not (is_conflict long || is_conflict short)
    then record s {
      by_id =
          put (record { id = id; long_name = resolved long; short_name = resolved short }) s.by_id;
    }
    else if is_nameless (resolved long) (resolved short)
    then record s { by_id = pop id s.by_id; skipped = id ∷ s.skipped; complete = false }
    else record s {
      by_id =
          put (record { id = id; long_name = resolved long; short_name = resolved short }) s.by_id;
      complete = false;
    }

unfoldable pub add_beside : Text → Option Text → Option Text → Snapshot → Option Entry → Snapshot
unfolding add_merged
add_beside id long short s none = record s {
  by_id = put (record { id = id; long_name = long; short_name = short }) s.by_id;
}
add_beside id long short s (some e) =
    add_merged id (merge e.long_name long) (merge e.short_name short) s

-- From `existing_entry` on.
unfoldable pub add_names : Text → Option Text → Option Text → Snapshot → Snapshot
unfolding add_beside
add_names id long short s = add_beside id long short s (entry_of id s.by_id)

-- A name that is no string leaves the snapshot incomplete.
unfoldable pub note_types : Bool → Snapshot → Snapshot
note_types are_strings s = record s { complete = s.complete && are_strings }

unfoldable pub add_typed : Text → Option Text × Bool → Option Text × Bool → Snapshot → Snapshot
unfolding note_types add_names
add_typed id (long, long_ok) (short, short_ok) s =
    add_names id long short (note_types (long_ok && short_ok) (record s { ids = id ∷ s.ids }))

-- An id that is read: a non-empty string, or an integer.
abbrev pub is_id : Value → Bool
is_id (str (c ∷ s)) = true
is_id (int z) = true
is_id _ = false

unfoldable pub spoil : Snapshot → Snapshot
spoil s = record s { complete = false }

abbrev pub empty_snapshot : Snapshot
empty_snapshot = record { by_id = []; ids = []; skipped = []; complete = true }

module _ (show_int : ℤ → Text) where
  -- `str()` of an id.
  abbrev pub show_id : Value → Text
  show_id (str s) = s
  show_id (int z) = show_int z
  show_id _ = []

  unfoldable pub key_of : Value → Text
  key_of v = show_id (normalize_node_id v)

  -- From `id_key` on.
  unfoldable pub add_user : Value → Fields → Snapshot → Snapshot
  unfolding add_typed
  add_user id user s =
      if mem_text (key_of id) s.skipped
      then s
      else add_typed (key_of id) (name_of (or_default (get user (codes "longName")) null))
          (name_of (or_default (get user (codes "shortName")) null)) s

  unfoldable pub collect_user : Option Value → Snapshot → Snapshot
  unfolding spoil
  collect_user (some (dict user)) s =
      let id = or_default (get user (codes "id")) null in
      if is_id id then add_user id user s else spoil s
  collect_user _ s = spoil s

  -- One round of the loop.
  unfoldable pub collect_node : Value → Snapshot → Snapshot
  unfolding collect_user spoil
  collect_node (dict node) s = collect_user (get node (codes "user")) s
  collect_node _ s = spoil s

  unfoldable pub collect_nodes : Fields → Snapshot → Snapshot
  unfolding collect_node
  collect_nodes end s = s
  collect_nodes (field k v fs) s = collect_nodes fs (collect_node v s)

  unfoldable pub sorted : Snapshot → Snapshot
  sorted s = record s { by_id = sort_entries s.by_id }

  -- `_collect_node_name_snapshot` of a dict; `by_id` is the sorted state of the answer.
  unfoldable pub collect : Fields → Snapshot
  unfolding sorted
  collect nodes = sorted (collect_nodes nodes empty_snapshot)
