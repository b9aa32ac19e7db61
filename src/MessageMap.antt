-- ===== src/MessageMap.antt =====
-- db_utils.py, the table `message_map`, and `_handle_message_mapping` of message_queue.py, which
-- fills it: which Matrix event a message of the mesh belongs to.
-- The table is the list of its rows in the order of SQLite's rowid: a new row gets the largest one,
-- and an update in place keeps its own. Whether a statement raises `sqlite3.Error` is an argument;
-- the transaction is then rolled back. What `str()` makes of an id is a parameter.
pub mod History
pub mod Pruning
mod Tests
use meshtastic_matrix_relay.Prelude.{
  ℕ, suc, ◌+◌, ◌-◌, Bool, true, false, ◌&&◌, ◌||◌, not, Option, none, some, List, [], ◌∷◌, length,
  drop, ltb, leb, if◌then◌else◌, ℤ, pos, negsuc, ltb_ℤ,
}
use meshtastic_matrix_relay.Text.{Text, text_eq}
use meshtastic_matrix_relay.PyValue.{Value}

pub record Row : Type 0 where
  pub meshtastic_id : Text
  pub event_id : Text
  pub room_id : Text
  pub text : Text
  pub meshnet : Option Text

abbrev pub Table : Type 0
Table = List Row

-- `_UPSERT_MESSAGE_MAP_SQL`: the event's id is the primary key.
unfoldable pub upsert : Row → Table → Table
upsert r [] = r ∷ []
upsert r (s ∷ t) = if text_eq s.event_id r.event_id then r ∷ t else s ∷ upsert r t

-- `_GET_MESSAGE_MAP_BY_MATRIX_EVENT_ID_SQL`
unfoldable pub find_event : Text → Table → Option Row
find_event e [] = none
find_event e (s ∷ t) = if text_eq s.event_id e then some s else find_event e t

-- `_GET_MESSAGE_MAP_BY_MESHTASTIC_ID_SQL`
unfoldable pub rows_of_id : Text → Table → List Row
rows_of_id id [] = []
rows_of_id id (s ∷ t) =
    let rest = rows_of_id id t in if text_eq s.meshtastic_id id then s ∷ rest else rest

-- How many rows are too many; `msgs_to_keep` may be negative.
unfoldable pub surplus : ℕ → ℤ → ℕ
surplus total (pos keep) = if ltb keep total then total - keep else 0
surplus total (negsuc n) = total + suc n

-- `_prune_message_map_core`: the rows, and the number that is deleted.
unfoldable pub prune_core : ℤ → Table → Table × ℕ
prune_core msgs_to_keep t =
    let to_delete = surplus (length t) msgs_to_keep in (drop to_delete t, to_delete)

-- `run_sync` or `run_async` with `write=True`, and the handler of `sqlite3.Error` around it.
abbrev pub committed : Bool → Table → Table → Table
committed fails before after = if fails then before else after

unfoldable pub store_message_map : Bool → Row → Table → Table
store_message_map fails r t = committed fails t (upsert r t)

unfoldable pub prune_message_map : Bool → ℤ → Table → Table
prune_message_map fails msgs_to_keep t = committed fails t (prune_core msgs_to_keep t).0

unfoldable pub wipe_message_map : Bool → Table → Table
wipe_message_map fails t = committed fails t []

unfoldable pub get_by_event : Bool → Text → Table → Option Row
get_by_event fails e t = if fails then none else find_event e t

-- `pick` is the row that the query yields first: SQL leaves the order open.
unfoldable pub get_by_meshtastic_id :
    (Text → List Row → Option Row) → Bool → Text → Table → Option Row
get_by_meshtastic_id pick fails id t = if fails then none else pick id (rows_of_id id t)

-- The argument `mapping_info`.
pub record Mapping : Type 0 where
  pub matrix_event_id : Text
  pub room_id : Text
  pub text : Text
  pub meshnet : Option Text
  pub msgs_to_keep : ℤ

abbrev pub is_filled : Text → Bool
is_filled [] = false
is_filled (c ∷ s) = true

module _ (show : Value → Text) where
  abbrev pub row_of : Value → Mapping → Row
  row_of id info = record {
    meshtastic_id = show id;
    event_id = info.matrix_event_id;
    room_id = info.room_id;
    text = info.text;
    meshnet = info.meshnet;
  }

  -- `_handle_message_mapping`: whether the write fails, and whether the pruning does.
  unfoldable pub handle_message_mapping : Bool → Bool → Value → Mapping → Table → Table
  handle_message_mapping store_fails prune_fails id info t =
      if is_filled info.matrix_event_id && (is_filled info.room_id && is_filled info.text)
      then (let stored = store_message_map store_fails (row_of id info) t in
          if ltb_ℤ (pos 0) info.msgs_to_keep
          then prune_message_map prune_fails info.msgs_to_keep stored
          else stored)
      else t
