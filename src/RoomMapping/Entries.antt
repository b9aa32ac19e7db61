-- ===== src/RoomMapping/Entries.antt =====
-- The ids that a mapping of either shape names, in their order.
use meshtastic_matrix_relay.Prelude.{
  ◌≡◌, refl, sym, ap, ◌∙◌, Bool, false, ◌||◌, some, List, [], ◌∷◌, if◌then◌else◌, arith, Bool-cases,
  inl, inr,
}
use meshtastic_matrix_relay.Text.{Text, codes}
use meshtastic_matrix_relay.Text.Laws.{text_eq_refl}
use meshtastic_matrix_relay.PyValue.{
  Value, Items, Fields, str, list, dict, nil, cons, end, field, get, text_is,
}
use meshtastic_matrix_relay.RoomMapping.{
  alias_or_id, set_field, set_entry, item_mapped, value_mapped, is_room_mapped, update_items,
  update_values, update_room_id_in_mapping,
}

unfoldable pub item_ids : Items → List Value
item_ids nil = []
item_ids (cons v vs) = alias_or_id v ∷ item_ids vs

unfoldable pub value_ids : Fields → List Value
value_ids end = []
value_ids (field k v fs) = alias_or_id v ∷ value_ids fs

-- What the entries of a mapping name.
unfoldable pub ids : Value → List Value
unfolding item_ids value_ids
ids (list vs) = item_ids vs
ids (dict fs) = value_ids fs
ids _ = []

unfoldable pub names : Text → List Value → Bool
names room [] = false
names room (v ∷ vs) = text_is room v || names room vs

unfoldable pub replace_first : Text → Text → List Value → List Value
replace_first alias new_id [] = []
replace_first alias new_id (v ∷ vs) =
    let rest = replace_first alias new_id vs in
    if text_is alias v then str new_id ∷ vs else v ∷ rest

get-set_field : (key : Text) (v : Value) (fs : Fields) → get (set_field key v fs) key ≡ some v
unfolding get set_field
get-set_field key v end = ground (arith, text_eq_refl key)
get-set_field key v (field k w fs) = ground (arith, get-set_field key v fs)

pub alias_or_id-set_entry :
    (new_id : Text) (v : Value) → alias_or_id (set_entry new_id v) ≡ str new_id
unfolding alias_or_id set_entry
alias_or_id-set_entry new_id (dict fs) = rw (get-set_field (codes "id") (str new_id) fs) refl
alias_or_id-set_entry new_id _ = refl

item_mapped-ids : (room : Text) (vs : Items) → item_mapped room vs ≡ names room (item_ids vs)
unfolding item_mapped names item_ids
item_mapped-ids room nil = refl
item_mapped-ids room (cons v vs) =
    ap (λ b. text_is room (alias_or_id v) || b) (item_mapped-ids room vs)

value_mapped-ids : (room : Text) (fs : Fields) → value_mapped room fs ≡ names room (value_ids fs)
unfolding value_mapped names value_ids
value_mapped-ids room end = refl
value_mapped-ids room (field k v fs) =
    ap (λ b. text_is room (alias_or_id v) || b) (value_mapped-ids room fs)

update_items-ids :
    (alias new_id : Text) (vs : Items)
    → ((update_items alias new_id vs).1 ≡ names alias (item_ids vs))
      × (item_ids (update_items alias new_id vs).0 ≡ replace_first alias new_id (item_ids vs))
unfolding update_items names item_ids replace_first
update_items-ids alias new_id nil = (refl, refl)
update_items-ids alias new_id (cons v vs) =
    let (found, named) = update_items-ids alias new_id vs in
    elim (Bool-cases (text_is alias (alias_or_id v))) [
      | inl y ↦ (rw y refl, rw y (ap (λ x. x ∷ item_ids vs) (alias_or_id-set_entry new_id v)))
      | inr n ↦ (rw n found, rw n (ap (λ l. alias_or_id v ∷ l) named))
    ]

update_values-ids :
    (alias new_id : Text) (fs : Fields)
    → ((update_values alias new_id fs).1 ≡ names alias (value_ids fs))
      × (value_ids (update_values alias new_id fs).0 ≡ replace_first alias new_id (value_ids fs))
unfolding update_values names value_ids replace_first
update_values-ids alias new_id end = (refl, refl)
update_values-ids alias new_id (field k v fs) =
    let (found, named) = update_values-ids alias new_id fs in
    elim (Bool-cases (text_is alias (alias_or_id v))) [
      | inl y ↦ (rw y refl, rw y (ap (λ x. x ∷ value_ids fs) (alias_or_id-set_entry new_id v)))
      | inr n ↦ (rw n found, rw n (ap (λ l. alias_or_id v ∷ l) named))
    ]

-- In a mapping of either shape, and in what is no mapping, `_update_room_id_in_mapping` puts the
-- room id in the place of the first entry that names the alias and leaves the others, and answers
-- true just where `_is_room_mapped` found the alias.
update_room_id_in_mapping-ids :
    (mapping : Value) (alias new_id : Text)
    → ((update_room_id_in_mapping mapping alias new_id).1 ≡ is_room_mapped mapping alias)
      × (ids (update_room_id_in_mapping mapping alias new_id).0
          ≡ replace_first alias new_id (ids mapping))
unfolding update_room_id_in_mapping is_room_mapped ids replace_first
update_room_id_in_mapping-ids (list vs) alias new_id =
    let (found, named) = update_items-ids alias new_id vs in
    (found ∙ sym (item_mapped-ids alias vs), named)
update_room_id_in_mapping-ids (dict fs) alias new_id =
    let (found, named) = update_values-ids alias new_id fs in
    (found ∙ sym (value_mapped-ids alias fs), named)
update_room_id_in_mapping-ids _ alias new_id = (refl, refl)
