-- ===== src/Prelude/Results.antt =====
-- Results of code that may raise an exception, with `do` blocks.
use mathlib.Core.Path.{◌≡◌, refl}

-- `E` is the type of what is raised.
pub data Result {ℓ κ} (E : Type ℓ) (A : Type κ) : Type (ℓ ⊔ κ) where
  ok : A → Result E A
  err : E → Result E A

module _ {ℓ κ μ} {E : Type ℓ} {A : Type κ} {B : Type μ} where
  infixl 5 ◌>>=◌
  abbrev pub ◌>>=◌ : Result E A → (A → Result E B) → Result E B
  ◌>>=◌ (err raised) next = err raised
  ◌>>=◌ (ok value) next = next value

  -- A `do` block that returns has got past its first step.
  pub ok_of_bind :
      (next : A → Result E B) (first : Result E A) {b : B}
      → (first >>= next) ≡ ok b
      → (value : A) × (next value ≡ ok b) × (first ≡ ok value)
  ok_of_bind next (err raised) h = cc
  ok_of_bind next (ok value) h = (value, h, refl)
