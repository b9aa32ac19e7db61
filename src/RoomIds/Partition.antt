-- ===== src/RoomIds/Partition.antt =====
-- `partition` finds the first occurrence.
use meshtastic_matrix_relay.Prelude.{
  ℕ, ◌≡◌, refl, subst, sym, ==_iff, true, false, [], ◌∷◌, ◌++◌, arith, ◌==◌, Bool-cases, inl, inr,
}
use meshtastic_matrix_relay.Text.{Text}
use meshtastic_matrix_relay.RoomIds.{partition, has}

-- The character is there: what stands before it does not have it.
pub partition_there :
    (d : ℕ) (before after : Text)
    → has d before ≡ false
    → partition d (before ++ d ∷ after) ≡ (before, true, after)
unfolding partition has
partition_there d [] after h = ground arith
partition_there d (c ∷ before) after h =
    ground (arith, partition_there d before after (ground arith))

pub partition_missing : (d : ℕ) (s : Text) → has d s ≡ false → partition d s ≡ (s, false, [])
unfolding partition has
partition_missing d [] h = refl
partition_missing d (c ∷ s) h = ground (arith, partition_missing d s (ground arith))

-- Every text is of one of the two kinds.
pub data Split (d : ℕ) : Text → Type 0 where
  there : (before after : Text) → has d before ≡ false → Split d (before ++ d ∷ after)
  missing : {s : Text} → has d s ≡ false → Split d s

cons-Split : (d c : ℕ) {s : Text} → (c == d) ≡ false → Split d s → Split d (c ∷ s)
unfolding has
cons-Split d c e (there before after h) = there (c ∷ before) after (ground arith)
cons-Split d c e (missing h) = missing (ground arith)

pub text-Split : (d : ℕ) (s : Text) → Split d s
unfolding has
text-Split d [] = missing refl
text-Split d (c ∷ s) = elim (Bool-cases (c == d)) [
  | inl e ↦ subst (λ x. Split d (x ∷ s)) (sym ((==_iff c d).0 e)) (there [] s refl)
  | inr e ↦ cons-Split d c e (text-Split d s)
]
