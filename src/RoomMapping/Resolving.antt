-- ===== src/RoomMapping/Resolving.antt =====
-- What is left to resolve after the aliases of a mapping are.
use meshtastic_matrix_relay.Prelude.{
  ◌≡◌, refl, ap, Bool, true, false, ◌&&◌, ◌||◌, not, Option, none, some, List, [], ◌∷◌,
  if◌then◌else◌, arith, Bool-cases, inl, inr,
}
use meshtastic_matrix_relay.Text.{Text}
use meshtastic_matrix_relay.PyValue.{Value, Items, Fields, str, list, dict, nil, cons, end, field}
use meshtastic_matrix_relay.RoomMapping.{
  is_room_alias, alias_or_id, put_answer, resolve_alias, resolve_entry, resolve_items,
  resolve_values, resolve_aliases_in_mapping,
}
use meshtastic_matrix_relay.RoomMapping.Entries.{alias_or_id-set_entry, item_ids, value_ids, ids}

module _ (resolver : Text → Option Text) where
  abbrev unanswered : Option Text → Bool
  unanswered none = true
  unanswered (some []) = true
  unanswered (some (c ∷ s)) = false

  -- An id that is no alias, or an alias without an answer.
  unfoldable pub is_settled : Value → Bool
  is_settled (str alias) = not (is_room_alias (str alias)) || unanswered (resolver alias)
  is_settled _ = true

  unfoldable pub all_settled : List Value → Bool
  unfolding is_settled
  all_settled [] = true
  all_settled (v ∷ vs) = is_settled v && all_settled vs

  abbrev answer_or : Option Text → Text → Text
  answer_or none alias = alias
  answer_or (some []) alias = alias
  answer_or (some (c ∷ s)) alias = c ∷ s

  -- The answer for an alias that has one, and else the id itself.
  unfoldable pub answer : Value → Value
  answer (str alias) =
      if is_room_alias (str alias) then str (answer_or (resolver alias) alias) else str alias
  answer v = v

  unfoldable pub all_answers : List Value → List Value
  unfolding answer
  all_answers [] = []
  all_answers (v ∷ vs) = answer v ∷ all_answers vs

  put_answer-answer :
      (a : Text) (v : Value) (o : Option Text)
      → alias_or_id v ≡ str a
      → alias_or_id (put_answer resolver o v) ≡ str (answer_or o a)
  put_answer-answer a v none e = e
  put_answer-answer a v (some []) e = e
  put_answer-answer a v (some (c ∷ s)) e = alias_or_id-set_entry (c ∷ s) v

  resolve_alias-answer :
      (i v : Value) → alias_or_id v ≡ i → alias_or_id (resolve_alias resolver i v) ≡ answer i
  unfolding resolve_alias answer
  resolve_alias-answer (str a) v e = elim (Bool-cases (is_room_alias (str a))) [
    | inl y ↦ rw y (put_answer-answer a v (resolver a) e)
    | inr n ↦ rw n e
  ]
  resolve_alias-answer _ v e = e

  resolve_entry-answer :
      (v : Value) → alias_or_id (resolve_entry resolver v) ≡ answer (alias_or_id v)
  unfolding resolve_entry
  resolve_entry-answer v = resolve_alias-answer (alias_or_id v) v refl

  resolve_items-answers :
      (vs : Items) → item_ids (resolve_items resolver vs) ≡ all_answers (item_ids vs)
  unfolding resolve_items item_ids all_answers
  resolve_items-answers nil = refl
  resolve_items-answers (cons v vs) = rw (resolve_entry-answer v, resolve_items-answers vs) refl

  resolve_values-answers :
      (fs : Fields) → value_ids (resolve_values resolver fs) ≡ all_answers (value_ids fs)
  unfolding resolve_values value_ids all_answers
  resolve_values-answers end = refl
  resolve_values-answers (field k v fs) =
      rw (resolve_entry-answer v, resolve_values-answers fs) refl

  ids-resolve :
      (mapping : Value)
      → ids (resolve_aliases_in_mapping resolver mapping) ≡ all_answers (ids mapping)
  unfolding resolve_aliases_in_mapping ids all_answers
  ids-resolve (list vs) = resolve_items-answers vs
  ids-resolve (dict fs) = resolve_values-answers fs
  ids-resolve _ = refl

  -- The answers are no aliases themselves.
  module _
      (rooms : (alias room : Text)
        → resolver alias ≡ some room
        → is_room_alias (str room) ≡ false) where
    put_answer-settled :
        (a : Text) (v : Value) (o : Option Text)
        → alias_or_id v ≡ str a
        → resolver a ≡ o
        → is_settled (alias_or_id (put_answer resolver o v)) ≡ true
    unfolding is_settled
    put_answer-settled a v none e h = rw (e, h) (ground arith)
    put_answer-settled a v (some []) e h = rw (e, h) (ground arith)
    put_answer-settled a v (some (c ∷ s)) e h =
        rw (alias_or_id-set_entry (c ∷ s) v) (ground (arith, rooms a (c ∷ s) h))

    resolve_alias-settled :
        (i v : Value)
        → alias_or_id v ≡ i
        → is_settled (alias_or_id (resolve_alias resolver i v)) ≡ true
    unfolding resolve_alias is_settled
    resolve_alias-settled (str a) v e = elim (Bool-cases (is_room_alias (str a))) [
      | inl y ↦ rw y (put_answer-settled a v (resolver a) e refl)
      | inr n ↦ rw (n, e) (ground (arith, n))
    ]
    resolve_alias-settled _ v e = rw e refl

    resolve_entry-settled : (v : Value) → is_settled (alias_or_id (resolve_entry resolver v)) ≡ true
    unfolding resolve_entry
    resolve_entry-settled v = resolve_alias-settled (alias_or_id v) v refl

    put_answer-unanswered :
        (o : Option Text) (v : Value) → unanswered o ≡ true → put_answer resolver o v ≡ v
    put_answer-unanswered none v h = refl
    put_answer-unanswered (some []) v h = refl
    put_answer-unanswered (some (c ∷ s)) v h = absurd (ground arith)

    resolve_alias-fixed : (i v : Value) → is_settled i ≡ true → resolve_alias resolver i v ≡ v
    unfolding resolve_alias is_settled
    resolve_alias-fixed (str a) v h = elim (Bool-cases (is_room_alias (str a))) [
      | inl y ↦ rw y (put_answer-unanswered (resolver a) v (ground (arith, y)))
      | inr n ↦ rw n refl
    ]
    resolve_alias-fixed _ v h = refl

    resolve_entry-again :
        (v : Value) → resolve_entry resolver (resolve_entry resolver v) ≡ resolve_entry resolver v
    unfolding resolve_entry
    resolve_entry-again v =
        resolve_alias-fixed (alias_or_id (resolve_entry resolver v)) (resolve_entry resolver v)
          (resolve_entry-settled v)

    resolve_items-settled :
        (vs : Items)
        → (all_settled (item_ids (resolve_items resolver vs)) ≡ true)
          × (resolve_items resolver (resolve_items resolver vs) ≡ resolve_items resolver vs)
    unfolding resolve_items item_ids all_settled
    resolve_items-settled nil = (refl, refl)
    resolve_items-settled (cons v vs) =
        let (settled, again) = resolve_items-settled vs in
        (ground (arith, settled, resolve_entry-settled v), rw (resolve_entry-again v, again) refl)

    resolve_values-settled :
        (fs : Fields)
        → (all_settled (value_ids (resolve_values resolver fs)) ≡ true)
          × (resolve_values resolver (resolve_values resolver fs) ≡ resolve_values resolver fs)
    unfolding resolve_values value_ids all_settled
    resolve_values-settled end = (refl, refl)
    resolve_values-settled (field k v fs) =
        let (settled, again) = resolve_values-settled fs in
        (ground (arith, settled, resolve_entry-settled v), rw (resolve_entry-again v, again) refl)

    settled_again :
        (mapping : Value)
        → (all_settled (ids (resolve_aliases_in_mapping resolver mapping)) ≡ true)
          × (resolve_aliases_in_mapping resolver (resolve_aliases_in_mapping resolver mapping)
              ≡ resolve_aliases_in_mapping resolver mapping)
    unfolding resolve_aliases_in_mapping ids all_settled
    settled_again (list vs) =
        let (settled, again) = resolve_items-settled vs in (settled, ap list again)
    settled_again (dict fs) =
        let (settled, again) = resolve_values-settled fs in (settled, ap dict again)
    settled_again _ = (refl, refl)

    -- Where no answer of the resolver is an alias itself: `_resolve_aliases_in_mapping` puts, in each
    -- entry of a list or a dict, the resolver's answer in the place of an alias that has one, and
    -- leaves the other ids; each alias that is left is one without an answer; and a second pass
    -- changes nothing.
    pub resolve_aliases_in_mapping-answers :
        (mapping : Value)
        → (ids (resolve_aliases_in_mapping resolver mapping) ≡ all_answers (ids mapping))
          × (all_settled (ids (resolve_aliases_in_mapping resolver mapping)) ≡ true)
          × (resolve_aliases_in_mapping resolver (resolve_aliases_in_mapping resolver mapping)
              ≡ resolve_aliases_in_mapping resolver mapping)
    resolve_aliases_in_mapping-answers mapping =
        let (settled, again) = settled_again mapping in (ids-resolve mapping, settled, again)
