-- ===== src/Base/Results.antt =====
-- How a call ends: with a value, or in a fault after which the process does not go on.
use mathlib.Core.Path.{◌≡◌, refl, ap}

-- A failed `assert`, a mutex locked twice by its thread, a null pointer followed, an access outside
-- a buffer, a vector of negative size, a loop that has not ended within the steps it was given.
pub data Fault : Type 0 where
  assertion deadlock null_pointer out_of_bounds length_error unfinished : Fault

pub data Result {ℓ} (A : Type ℓ) : Type ℓ where
  fault : Fault → Result A
  ok : A → Result A

module _ {ℓ} {A : Type ℓ} where
  pub ok-injective : {x y : A} → ok x ≡ ok y → x ≡ y
  ok-injective {x = x} e = ap (λ r. elim r [ fault why ↦ x | ok y ↦ y ]) e

module _ {ℓ κ} {A : Type ℓ} {B : Type κ} where
  infixl 5 ◌>>=◌
  abbrev pub ◌>>=◌ : Result A → (A → Result B) → Result B
  fault why >>= rest = fault why
  ok x >>= rest = rest x

  -- What a bind that succeeds went through.
  pub >>=-eq-ok :
      (m : Result A) (rest : A → Result B) {y : B}
      → (m >>= rest) ≡ ok y
      → (x : A) × (m ≡ ok x) × (rest x ≡ ok y)
  >>=-eq-ok (fault why) rest h = cc
  >>=-eq-ok (ok x) rest h = (x, refl, h)

module _ {ℓ κ ι} {A : Type ℓ} {B : Type κ} {C : Type ι} where
  pub >>=-assoc :
      (m : Result A) (f : A → Result B) (g : B → Result C)
      → (m >>= f >>= g) ≡ (m >>= λ x. f x >>= g)
  >>=-assoc (fault why) f g = refl
  >>=-assoc (ok x) f g = refl
