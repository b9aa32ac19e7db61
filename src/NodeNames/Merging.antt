-- ===== src/NodeNames/Merging.antt =====
-- Two entries for one id are merged in either order alike; three are not.
use meshtastic_matrix_relay.Prelude.{◌≡◌, refl, ap, ◌∙◌, false, Option, none, some, [], ◌∷◌, arith}
use meshtastic_matrix_relay.Text.{Text, text_eq}
use meshtastic_matrix_relay.Text.Laws.{text_eq_iff, text_eq_refl}
use meshtastic_matrix_relay.NodeNames.{Entry, State, put, pop, entry_of}
use meshtastic_matrix_relay.NodeNames.Snapshot.{
  Snapshot, Merged, merge, resolved, add_merged, add_beside, add_names,
}

merge_comm : (a b : Option Text) → merge a b ≡ merge b a
merge_comm none none = refl
merge_comm none (some b) = refl
merge_comm (some a) none = refl
merge_comm (some a) (some b) = ground (arith, text_eq_iff a b, text_eq_iff b a)

entry_of-put_self : (e : Entry) (s : State) → entry_of e.id (put e s) ≡ some e
unfolding entry_of put
entry_of-put_self e [] = ground (arith, text_eq_refl e.id)
entry_of-put_self e (d ∷ s) = ground (arith, text_eq_refl e.id, entry_of-put_self e s)

-- Of two puts at one id the last one counts.
put-put : (d e : Entry) (s : State) → d.id ≡ e.id → put e (put d s) ≡ put e s
unfolding put
put-put d e [] h = ground (arith, text_eq_iff d.id e.id)
put-put d e (c ∷ s) h =
    ground
      (arith, text_eq_iff c.id d.id, text_eq_iff c.id e.id, text_eq_iff d.id e.id, put-put d e s h)

pop-put_new : (e : Entry) (s : State) → entry_of e.id s ≡ none → pop e.id (put e s) ≡ s
unfolding put pop entry_of
pop-put_new e [] h = ground (arith, text_eq_refl e.id)
pop-put_new e (d ∷ s) h = ground (arith, pop-put_new e s)

abbrev pub entry : Text → Option Text → Option Text → Entry
entry id long short = record { id = id; long_name = long; short_name = short }

-- Adding to an entry that was just put forgets all of it but what was merged.
add_merged-put :
    (id : Text) (long short l0 s0 : Option Text) (m n : Merged) (s : Snapshot)
    → entry_of id s.by_id ≡ none
    → add_merged id m n (record s { by_id = put (entry id l0 s0) s.by_id })
      ≡ add_merged id m n (record s { by_id = put (entry id long short) s.by_id })
unfolding add_merged
add_merged-put id long short l0 s0 m n s new =
    let final = entry id (resolved m) (resolved n) in
    ground (
      arith,
      put-put (entry id l0 s0) final s.by_id refl,
      put-put (entry id long short) final s.by_id refl,
      pop-put_new (entry id l0 s0) s.by_id new,
      pop-put_new (entry id long short) s.by_id new,
    )

add_names-new :
    (id : Text) (long short : Option Text) (s : Snapshot)
    → entry_of id s.by_id ≡ none
    → add_names id long short s ≡ record s { by_id = put (entry id long short) s.by_id }
unfolding add_names add_beside
add_names-new id long short s new = rw new

add_names-again :
    (id : Text) (l0 s0 long short : Option Text) (s : Snapshot)
    → add_names id long short (record s { by_id = put (entry id l0 s0) s.by_id })
      ≡ add_merged id
          (merge l0 long)
          (merge s0 short)
          (record s { by_id = put (entry id l0 s0) s.by_id })
unfolding add_names add_beside
add_names-again id l0 s0 long short s = rw (entry_of-put_self (entry id l0 s0) s.by_id)

add_names_twice :
    (id : Text) (l0 s0 long short : Option Text) (s : Snapshot)
    → entry_of id s.by_id ≡ none
    → add_names id long short (add_names id l0 s0 s)
      ≡ add_merged id
          (merge l0 long)
          (merge s0 short)
          (record s { by_id = put (entry id l0 s0) s.by_id })
add_names_twice id l0 s0 long short s new =
    ap (add_names id long short) (add_names-new id l0 s0 s new)
    ∙ add_names-again id l0 s0 long short s

-- Two entries for an id that has none yet give one snapshot, whichever comes first.
add_names_comm :
    (id : Text) (l0 s0 long short : Option Text) (s : Snapshot)
    → entry_of id s.by_id ≡ none
    → add_names id long short (add_names id l0 s0 s)
      ≡ add_names id l0 s0 (add_names id long short s)
add_names_comm id l0 s0 long short s new = cc (
  add_names_twice id l0 s0 long short s new,
  add_names_twice id long short l0 s0 s new,
  merge_comm l0 long,
  merge_comm s0 short,
  add_merged-put id long short l0 s0 (merge l0 long) (merge s0 short) s new,
)

entry_of-add_names_new :
    (id : Text) (long short : Option Text) (s : Snapshot)
    → entry_of id s.by_id ≡ none
    → entry_of id (add_names id long short s).by_id ≡ some (entry id long short)
entry_of-add_names_new id long short s new =
    ap (λ (t : Snapshot). entry_of id t.by_id) (add_names-new id long short s new)
    ∙ entry_of-put_self (entry id long short) s.by_id

entry_of-add_names :
    (id short : Text) (l0 : Option Text) (long : Text) (s : Snapshot)
    → entry_of id s.by_id ≡ some (entry id l0 (some short))
    → entry_of id (add_names id (some long) (some short) s).by_id
      ≡ some (entry id (resolved (merge l0 (some long))) (some short))
unfolding add_names add_beside add_merged
entry_of-add_names id short l0 long s e = ground (
  arith,
  e,
  text_eq_refl short,
  entry_of-put_self (entry id (resolved (merge l0 (some long))) (some short)) s.by_id,
)

merge_self : (a : Text) → resolved (merge (some a) (some a)) ≡ some a
merge_self a = ground (arith, text_eq_refl a)

-- With three entries the order decides: of a long name that two of them share nothing is left if the
-- third comes last, and it is taken if one of the two does, though the short names agree.
pub three_names_differ :
    (id short a b : Text) (s : Snapshot)
    → entry_of id s.by_id ≡ none
    → text_eq a b ≡ false
    → (entry_of id
          (add_names id
            (some b)
            (some short)
            (add_names id (some a) (some short) (add_names id (some a) (some short) s))).by_id
        ≡ some (entry id none (some short)))
      × (entry_of id
            (add_names id
              (some a)
              (some short)
              (add_names id (some b) (some short) (add_names id (some a) (some short) s))).by_id
          ≡ some (entry id (some a) (some short)))
three_names_differ id short a b s new differ =
    let one = add_names id (some a) (some short) s in
    let first = entry_of-add_names_new id (some a) (some short) s new in
    let same : entry_of id (add_names id (some a) (some short) one).by_id
        ≡ some (entry id (some a) (some short)) =
      entry_of-add_names id short (some a) a one first
      ∙ ap (λ l. some (entry id l (some short))) (merge_self a) in
    let clash : entry_of id (add_names id (some b) (some short) one).by_id
        ≡ some (entry id none (some short)) =
      entry_of-add_names id short (some a) b one first ∙ ground (arith, differ) in
    (
      entry_of-add_names id short (some a) b (add_names id (some a) (some short) one) same
          ∙ ground (arith, differ),
      entry_of-add_names id short none a (add_names id (some b) (some short) one) clash,
    )
