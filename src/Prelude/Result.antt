-- ===== src/Prelude/Result.antt =====
-- Results of code that fails with an error.
use mathlib.Core.Path.{◌≡◌, refl}

pub data Result {ℓ κ} (E : Type ℓ) (A : Type κ) : Type (ℓ ⊔ κ) where
  ok : A → Result E A
  err : E → Result E A

module _ {ℓ κ κ'} where
  -- `?` and `and_then`.
  infixl 5 ◌>>=◌
  abbrev pub ◌>>=◌ :
      {E : Type ℓ} {A : Type κ} {B : Type κ'} → Result E A → (A → Result E B) → Result E B
  ok a >>= f = f a
  err e >>= f = err e

  -- The parts of a chain that succeeds.
  pub >>=-eq-ok :
      {E : Type ℓ} {A : Type κ} {B : Type κ'} (r : Result E A) (f : A → Result E B) {b : B}
      → (r >>= f) ≡ ok b
      → (a : A) × (r ≡ ok a) × (f a ≡ ok b)
  >>=-eq-ok (ok a) f h = (a, refl, h)
  >>=-eq-ok (err e) f h = cc
