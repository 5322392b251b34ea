-- ===== src/Faults.antt =====
-- How an operation ends: with its result, or at a failed `assert`, a call through a null pointer or the
-- use of a deleted object; and a loop may run out of fuel.
pub mod Post
use nohands.Prelude.{Bool, true, false}

pub data Fault : Type 0 where
  assertion null_pointer dangling out_of_fuel : Fault

pub data Result {ℓ} (A : Type ℓ) : Type ℓ where
  ok : A → Result A
  fault : Fault → Result A

infixl 5 ◌>>=◌ ◌>>◌
abbrev pub ◌>>=◌ {ℓ κ} : {A : Type ℓ} {B : Type κ} → Result A → (A → Result B) → Result B
ok a >>= f = f a
fault e >>= f = fault e

abbrev pub ◌>>◌ {ℓ} : {B : Type ℓ} → Result (Unit {0}) → Result B → Result B
m >> k = m >>= λ _. k

abbrev pub assert : Bool → Result (Unit {0})
assert true = ok tt
assert false = fault assertion
