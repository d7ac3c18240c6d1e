-- ===== src/Common/Runs.antt =====
-- The outcome of running C code: a result, undefined behaviour or a failed assertion, or a loop
-- that has used up the rounds that it was given.

use mathlib.Core.Path.{◌≡◌, refl}
use mathlib.Core.Logic.{◌⊎◌, inl, inr}

pub data Run (A : Type 0) : Type 0 where
  done : A → Run A
  fault : Run A
  out_of_fuel : Run A

infixl 5 ◌>>=◌
abbrev pub ◌>>=◌ : {A B : Type 0} → Run A → (A → Run B) → Run B
done a >>= k = k a
fault >>= k = fault
out_of_fuel >>= k = out_of_fuel

-- What holds of the result, if there is one.
abbrev pub Ensures : {A : Type 0} → (A → Type 0) → Run A → Type 0
Ensures P (done a) = P a
Ensures P fault = Unit {0}
Ensures P out_of_fuel = Unit {0}

pub Ensures-bind :
    {A B : Type 0} (P : B → Type 0) (m : Run A) (k : A → Run B)
    → ((a : A) → Ensures P (k a))
    → Ensures P (m >>= k)
Ensures-bind P (done a) k h = h a
Ensures-bind P fault k h = tt
Ensures-bind P out_of_fuel k h = tt

pub Run-cases :
    {A : Type 0} (m : Run A) → ((a : A) × (m ≡ done a)) ⊎ ((m ≡ fault) ⊎ (m ≡ out_of_fuel))
Run-cases (done a) = inl (a, refl)
Run-cases fault = inr (inl refl)
Run-cases out_of_fuel = inr (inr refl)
