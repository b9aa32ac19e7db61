-- ===== src/NodeNames/Rows.antt =====
-- What a sync makes of one names table, row by row.
use meshtastic_matrix_relay.Prelude.{
  ◌≡◌, refl, Bool, true, false, ◌&&◌, ◌||◌, not, Option, none, some, List, [], ◌∷◌, if◌then◌else◌,
  arith,
}
use meshtastic_matrix_relay.Text.{Text, text_eq, mem_text}
use meshtastic_matrix_relay.Text.Laws.{text_eq_iff}
use meshtastic_matrix_relay.NodeNames.{Entry, State, Names, entry_of}
use meshtastic_matrix_relay.NodeNames.Sync.{
  name_at, upsert_name, delete_name, delete_stale, write_name, write_names, sync_table,
}

abbrev pub has_id : Text → State → Bool
has_id id [] = false
has_id id (e ∷ s) = text_eq e.id id || has_id id s

abbrev pub is_keyed : State → Bool
is_keyed [] = true
is_keyed (e ∷ s) = not (has_id e.id s) && is_keyed s

pub name_at-upsert_name :
    (j id n : Text) (t : Names)
    → name_at j (upsert_name id n t) ≡ (if text_eq id j then some (some n) else name_at j t)
unfolding name_at upsert_name
name_at-upsert_name j id n [] = refl
name_at-upsert_name j id n ((i, m) ∷ t) =
    ground
      (arith, text_eq_iff i id, text_eq_iff i j, text_eq_iff id j, name_at-upsert_name j id n t)

pub name_at-delete_name :
    (j id : Text) (t : Names)
    → name_at j (delete_name id t) ≡ (if text_eq id j then none else name_at j t)
unfolding name_at delete_name
name_at-delete_name j id [] = ground arith
name_at-delete_name j id ((i, m) ∷ t) =
    ground (arith, text_eq_iff i id, text_eq_iff i j, text_eq_iff id j, name_at-delete_name j id t)

mem_text-cong : (i j : Text) (ids : List Text) → i ≡ j → mem_text i ids ≡ mem_text j ids
mem_text-cong i j ids e = cc

pub name_at-delete_stale :
    (j : Text) (ids : List Text) (t : Names)
    → name_at j (delete_stale ids t) ≡ (if mem_text j ids then name_at j t else none)
unfolding name_at delete_stale
name_at-delete_stale j ids [] = ground arith
name_at-delete_stale j ids ((i, m) ∷ t) =
    ground (arith, text_eq_iff i j, mem_text-cong i j ids, name_at-delete_stale j ids t)

-- What writing a name makes of a row.
abbrev pub written : Bool → Option Text → Option (Option Text) → Option (Option Text)
written complete none row = if complete then none else row
written complete (some n) row = some (some n)

abbrev pub written_by :
    Bool → (Entry → Option Text) → Option Entry → Option (Option Text) → Option (Option Text)
written_by complete name none row = row
written_by complete name (some e) row = written complete (name e) row

name_at-write_name :
    (complete : Bool) (j id : Text) (name : Option Text) (t : Names)
    → name_at j (write_name complete id name t)
      ≡ (if text_eq id j then written complete name (name_at j t) else name_at j t)
unfolding write_name
name_at-write_name complete j id none t = ground (arith, name_at-delete_name j id t)
name_at-write_name complete j id (some n) t = name_at-upsert_name j id n t

entry_of-none : (id : Text) (s : State) → has_id id s ≡ false → entry_of id s ≡ none
unfolding entry_of
entry_of-none id [] h = refl
entry_of-none id (e ∷ s) h = ground (arith, entry_of-none id s)

name_at-write_names :
    (complete : Bool) (name : Entry → Option Text) (j : Text) (s : State) (t : Names)
    → is_keyed s ≡ true
    → name_at j (write_names complete name s t)
      ≡ written_by complete name (entry_of j s) (name_at j t)
unfolding write_names entry_of
name_at-write_names complete name j [] t k = refl
name_at-write_names complete name j (e ∷ s) t k = ground (
  arith,
  name_at-write_names complete name j s (write_name complete e.id (name e) t) (ground arith),
  name_at-write_name complete j e.id (name e) t,
  entry_of-none j s,
  text_eq_iff e.id j,
)

-- The abstract view of a sync: the row of an id after it, from the row before it.
abbrev pub synced :
    Bool
    → List Text
    → (Entry → Option Text)
    → State
    → Text
    → Option (Option Text)
    → Option (Option Text)
synced complete ids name s j row =
    if complete && not (mem_text j ids) then none else written_by complete name (entry_of j s) row

-- A sync of a state with distinct ids does to every row what the abstract view says.
pub name_at-sync_table :
    (complete : Bool) (ids : List Text) (name : Entry → Option Text) (s : State) (j : Text)
    (t : Names)
    → is_keyed s ≡ true
    → name_at j (sync_table complete ids name s t) ≡ synced complete ids name s j (name_at j t)
unfolding sync_table
name_at-sync_table true ids name s j t k = ground (
  arith,
  name_at-delete_stale j ids (write_names true name s t),
  name_at-write_names true name j s t k,
)
name_at-sync_table false ids name s j t k = ground (arith, name_at-write_names false name j s t k)
