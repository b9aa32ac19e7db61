-- ===== src/MessageMap/Tests.antt =====
-- A message map of at most two rows, and the theorems at it.
use meshtastic_matrix_relay.Prelude.{
  ◌≤◌, ◌≡◌, refl, true, false, Option, none, some, List, [], ◌∷◌, length, pos, arith,
}
use meshtastic_matrix_relay.Text.{Text, codes, text_eq}
use meshtastic_matrix_relay.PyValue.{Value, str}
use meshtastic_matrix_relay.MessageMap.{
  Row, Table, Mapping, upsert, find_event, prune_core, surplus, store_message_map,
  prune_message_map, wipe_message_map, row_of, handle_message_mapping, get_by_meshtastic_id,
  rows_of_id,
}
use meshtastic_matrix_relay.MessageMap.History.{
  Call, stores, prunes, wipes, run, last_stored, is_keyed, find_event-run,
}
use meshtastic_matrix_relay.MessageMap.Pruning.{kept, find_event-handle_message_mapping}

abbrev show : Value → Text
show (str s) = s
show _ = codes "7"

abbrev row : Text → Text → Row
row id event = record {
  meshtastic_id = id;
  event_id = event;
  room_id = codes "!r";
  text = codes "hi";
  meshnet = none;
}

abbrev two_rows : Table
two_rows = row (codes "1") (codes "$a") ∷ row (codes "2") (codes "$b") ∷ []

abbrev info : Mapping
info = record {
  matrix_event_id = codes "$c";
  room_id = codes "!r";
  text = codes "hi";
  meshnet = none;
  msgs_to_keep = pos 2;
}

abbrev id : Value
id = str (codes "3")

oldest_goes :
    handle_message_mapping show false false id info two_rows
    ≡ row (codes "2") (codes "$b") ∷ row (codes "3") (codes "$c") ∷ []
unfolding handle_message_mapping store_message_map prune_message_map prune_core surplus upsert
    text_eq
oldest_goes = refl

first_row : Text → List Row → Option Row
first_row key [] = none
first_row key (r ∷ rows) = some r

by_id :
    get_by_meshtastic_id first_row false (codes "2") two_rows ≡ some (row (codes "2") (codes "$b"))
unfolding get_by_meshtastic_id rows_of_id first_row text_eq
by_id = refl

find_event-handle_message_mapping_example :
    (handle_message_mapping show false false id info two_rows
      ≡ kept 2 (row_of show id info) two_rows)
    × (find_event info.matrix_event_id (handle_message_mapping show false false id info two_rows)
        ≡ some (row_of show id info))
    × (length (handle_message_mapping show false false id info two_rows) ≤ 2)
find_event-handle_message_mapping_example =
    find_event-handle_message_mapping show id info 2 two_rows refl (omega arith) (omega arith) refl
      refl refl

abbrev calls : List Call
calls =
    prunes false (pos 1)
    ∷ stores false (row (codes "9") (codes "$b"))
    ∷ wipes true
    ∷ stores false (row (codes "2") (codes "$b"))
    ∷ []

found : find_event (codes "$b") (run calls) ≡ some (row (codes "9") (codes "$b"))
unfolding find_event store_message_map prune_message_map wipe_message_map prune_core surplus upsert
    text_eq
found = refl

find_event-run_example :
    (last_stored (codes "$b") calls ≡ some (row (codes "9") (codes "$b")))
    × (is_keyed (run calls) ≡ true)
find_event-run_example = find_event-run (codes "$b") (row (codes "9") (codes "$b")) calls found
