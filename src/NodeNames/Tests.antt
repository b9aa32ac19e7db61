-- ===== src/NodeNames/Tests.antt =====
-- Snapshots of two nodes, and the theorems at them.
use meshtastic_matrix_relay.Prelude.{◌≡◌, refl, true, false, none, some, [], ◌∷◌, ℤ, pos}
use meshtastic_matrix_relay.Text.{Text, codes, text_eq, mem_text}
use meshtastic_matrix_relay.PyValue.{Value, null, int, str, dict, Fields, end, field, get}
use meshtastic_matrix_relay.NodeIdentity.{normalize_node_id, hex, hex_digit}
use meshtastic_matrix_relay.NodeNames.{
  Tables, put, entry_of, text_lt, insert_entry, insert_all, sort_entries,
}
use meshtastic_matrix_relay.NodeNames.Snapshot.{
  empty_snapshot, add_names, add_user, key_of, collect_node, collect_nodes, collect,
}
use meshtastic_matrix_relay.NodeNames.Sync.{
  upsert_name, delete_name, delete_stale, write_name, write_names, sync_table, sync_tables,
  sync_state, sync_name_tables_if_changed,
}
use meshtastic_matrix_relay.NodeNames.Merging.{entry, three_names_differ}
use meshtastic_matrix_relay.NodeNames.Partial.{Keeps, sync_name_tables_if_changed-Keeps}
use meshtastic_matrix_relay.NodeNames.Convergence.{
  no_faults, Settled, sync_name_tables_if_changed-Settled,
}

abbrev show_int : ℤ → Text
show_int z = codes "0"

abbrev node : Value → Value → Value → Value
node id long short = dict (
    field (codes "user")
      (dict (
        field (codes "id") id
          (field (codes "longName") long (field (codes "shortName") short end))))
      end)

abbrev ann : Value
ann = node (int (pos 10)) (str (codes "Ann")) (str (codes "A"))

abbrev bob : Value
bob = node (str (codes "!0000000b")) (str (codes "Bob")) null

abbrev two_nodes : Fields
two_nodes = field (codes "k") bob (field (codes "l") ann end)

abbrev half : Fields
half = field (codes "k") bob (field (codes "l") null end)

abbrev old : Tables
old = record {
  longnames = (codes "!0000000c", some (codes "Cat")) ∷ [];
  shortnames = (codes "!0000000b", some (codes "B")) ∷ [];
}

ann_and_bob :
    (collect show_int two_nodes).by_id
    ≡ entry (codes "!0000000a") (some (codes "Ann")) (some (codes "A"))
      ∷ entry (codes "!0000000b") (some (codes "Bob")) none
      ∷ []
unfolding collect collect_nodes collect_node add_user key_of normalize_node_id hex hex_digit
    mem_text get text_eq add_names put entry_of sort_entries insert_all insert_entry text_lt
ann_and_bob = refl

is_complete : (collect show_int two_nodes).complete ≡ true
unfolding collect collect_nodes collect_node add_user key_of normalize_node_id hex hex_digit
    mem_text get text_eq add_names put entry_of
is_complete = refl

is_partial : (collect show_int half).complete ≡ false
unfolding collect collect_nodes collect_node add_user key_of normalize_node_id hex hex_digit
    mem_text get text_eq add_names put entry_of
is_partial = refl

stale_and_nameless_go :
    (sync_name_tables_if_changed show_int no_faults (some two_nodes) none old).1 ≡ record {
      longnames =
          (codes "!0000000a", some (codes "Ann")) ∷ (codes "!0000000b", some (codes "Bob")) ∷ [];
      shortnames = (codes "!0000000a", some (codes "A")) ∷ [];
    }
unfolding sync_name_tables_if_changed collect collect_nodes collect_node add_user key_of
    normalize_node_id hex hex_digit mem_text get text_eq add_names put entry_of sort_entries
    insert_all insert_entry text_lt sync_state sync_tables sync_table write_names write_name
    upsert_name delete_name delete_stale
stale_and_nameless_go = refl

sync_name_tables_if_changed-Settled_example :
    Settled
      (collect show_int two_nodes)
      (sync_name_tables_if_changed show_int no_faults (some two_nodes) none old)
sync_name_tables_if_changed-Settled_example =
    sync_name_tables_if_changed-Settled show_int (codes "k") bob (field (codes "l") ann end) none
      old is_complete

sync_name_tables_if_changed-Keeps_example :
    Keeps old (sync_name_tables_if_changed show_int no_faults (some half) none old)
sync_name_tables_if_changed-Keeps_example =
    sync_name_tables_if_changed-Keeps show_int no_faults (codes "k") bob
      (field (codes "l") null end) none old is_partial

no_entry : entry_of (codes "x") [] ≡ none
unfolding entry_of
no_entry = refl

a_is_not_b : text_eq (codes "a") (codes "b") ≡ false
unfolding text_eq
a_is_not_b = refl

three_names_differ_example :
    (entry_of
        (codes "x")
        (add_names (codes "x") (some (codes "b")) (some (codes "s")) (
          add_names
            (codes "x")
            (some (codes "a"))
            (some (codes "s"))
            (add_names (codes "x") (some (codes "a")) (some (codes "s")) empty_snapshot))).by_id
      ≡ some (entry (codes "x") none (some (codes "s"))))
    × (entry_of
          (codes "x")
          (add_names (codes "x") (some (codes "a")) (some (codes "s")) (
            add_names
              (codes "x")
              (some (codes "b"))
              (some (codes "s"))
              (add_names (codes "x") (some (codes "a")) (some (codes "s")) empty_snapshot))).by_id
        ≡ some (entry (codes "x") (some (codes "a")) (some (codes "s"))))
three_names_differ_example =
    three_names_differ (codes "x") (codes "s") (codes "a") (codes "b") empty_snapshot no_entry
      a_is_not_b
