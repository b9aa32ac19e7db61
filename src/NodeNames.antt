-- ===== src/NodeNames.antt =====
-- db_utils.py, the tables `longnames` and `shortnames`: the names of the nodes, as the database of
-- the radio tells them, and their rows. What `str()` makes of an integer is a parameter.
pub mod Snapshot
pub mod Sync
pub mod Merging
pub mod Rows
pub mod Keys
pub mod Partial
pub mod Convergence
mod Tests
use meshtastic_matrix_relay.Prelude.{
  ℕ, Bool, true, false, ◌&&◌, ◌||◌, Option, none, some, List, [], ◌∷◌, ltb, ◌==◌, if◌then◌else◌,
}
use meshtastic_matrix_relay.Text.{Text, text_eq, mem_text}

-- `NodeNameEntry`
pub record Entry : Type 0 where
  pub id : Text
  pub long_name : Option Text
  pub short_name : Option Text

-- `NodeNameState`
abbrev pub State : Type 0
State = List Entry

-- A names table: a column may be NULL.
abbrev pub Names : Type 0
Names = List (Text × Option Text)

pub record Tables : Type 0 where
  pub longnames : Names
  pub shortnames : Names

-- The dict `state_by_id`: a new key stands last, a known one keeps its place.
unfoldable pub put : Entry → State → State
put e [] = e ∷ []
put e (d ∷ s) = if text_eq d.id e.id then e ∷ s else d ∷ put e s

-- `pop(id, None)`
unfoldable pub pop : Text → State → State
pop id [] = []
pop id (d ∷ s) = if text_eq d.id id then s else d ∷ pop id s

unfoldable pub entry_of : Text → State → Option Entry
entry_of id [] = none
entry_of id (d ∷ s) = if text_eq d.id id then some d else entry_of id s

-- `s < t`, by code points.
unfoldable pub text_lt : Text → Text → Bool
text_lt s [] = false
text_lt [] (d ∷ t) = true
text_lt (c ∷ s) (d ∷ t) = ltb c d || (c == d && text_lt s t)

unfoldable pub insert_entry : Entry → State → State
insert_entry e [] = e ∷ []
insert_entry e (d ∷ s) = if text_lt e.id d.id then e ∷ d ∷ s else d ∷ insert_entry e s

unfoldable pub insert_all : State → State → State
insert_all [] sorted = sorted
insert_all (d ∷ s) sorted = insert_all s (insert_entry d sorted)

-- `sort(key=lambda entry: entry.meshtastic_id)`, which is stable.
unfoldable pub sort_entries : State → State
sort_entries s = insert_all s []
