-- ===== src/Faults/Post.antt =====
-- Postconditions of the operations that may end in a fault.
use mathlib.Core.Path.{subst}
use nohands.Prelude.{◌≡◌, refl, Bool, true, false, if◌then◌else◌}
use nohands.Faults.{Result, ok, fault, ◌>>=◌}

-- `F` is what a fault is held to: `⊥` where there is none, `Unit` where it does not matter.
abbrev pub Post {ℓ} : Type 0 → {A : Type ℓ} → (A → Type 0) → Result A → Type 0
Post F P (ok a) = P a
Post F P (fault f) = F

-- The operation returns, and its result satisfies `P`.
abbrev pub Holds {ℓ} : {A : Type ℓ} → (A → Type 0) → Result A → Type 0
Holds P m = Post ⊥ P m

-- If it returns, its result satisfies `P`.
abbrev pub IfOk {ℓ} : {A : Type ℓ} → (A → Type 0) → Result A → Type 0
IfOk P m = Post (Unit {0}) P m

module _ {ℓ κ} {A : Type ℓ} {B : Type κ} (F : Type 0) (P : A → Type 0) (Q : B → Type 0) where
  pub Post-bind :
      (m : Result A) (f : A → Result B)
      → Post F P m
      → ((a : A) → P a → Post F Q (f a))
      → Post F Q (m >>= f)
  Post-bind (ok a) f h k = k a h
  Post-bind (fault e) f h k = h

  pub Post-map :
      (m : Result A) (f : A → B)
      → Post F P m
      → ((a : A) → P a → Q (f a))
      → Post F Q (m >>= λ a. ok (f a))
  Post-map (ok a) f h k = k a h
  Post-map (fault e) f h k = h

pub bind_assoc {ℓ κ μ} :
    {A : Type ℓ} {B : Type κ} {C : Type μ} (m : Result A) (f : A → Result B) (g : B → Result C)
    → ((m >>= f) >>= g) ≡ (m >>= λ a. f a >>= g)
bind_assoc (ok a) f g = refl
bind_assoc (fault e) f g = refl

ok-injective {ℓ} : {A : Type ℓ} {a b : A} → ok a ≡ ok b → a ≡ b
ok-injective e = cc

pub IfOk-at {ℓ} : {A : Type ℓ} (P : A → Type 0) (m : Result A) (a : A) → IfOk P m → m ≡ ok a → P a
IfOk-at P (ok b) a h e = subst P (ok-injective e) h
IfOk-at P (fault f) a h e = cc

pub Post-weaken {ℓ} :
    {A : Type ℓ} (F : Type 0) (P Q : A → Type 0) (m : Result A)
    → ((a : A) → P a → Q a)
    → Post F P m
    → Post F Q m
Post-weaken F P Q (ok a) k h = k a h
Post-weaken F P Q (fault f) k h = h

-- Where nothing is asked of the result.
pub Post-trivial {ℓ} : {A : Type ℓ} (m : Result A) → IfOk (λ _. Unit {0}) m
Post-trivial (ok a) = tt
Post-trivial (fault f) = tt

-- A postcondition of both branches.
pub Post-if {ℓ} :
    {A : Type ℓ} (F : Type 0) (P : A → Type 0) (b : Bool) (m n : Result A)
    → (b ≡ true → Post F P m)
    → (b ≡ false → Post F P n)
    → Post F P (if b then m else n)
Post-if F P true m n h k = h refl
Post-if F P false m n h k = k refl

pub Post-both {ℓ} :
    {A : Type ℓ} (F : Type 0) (P Q : A → Type 0) (m : Result A)
    → Post F P m
    → Post F Q m
    → Post F (λ a. P a × Q a) m
Post-both F P Q (ok a) h k = (h, k)
Post-both F P Q (fault e) h k = h

-- A family of postconditions, of which there is one at least.
pub Holds-all {ℓ} :
    {I : Type 0} {A : Type ℓ} (P : I → A → Type 0) (i : I) (m : Result A)
    → ((j : I) → Holds (P j) m)
    → Holds (λ a. (j : I) → P j a) m
Holds-all P i (ok a) h = h
Holds-all P i (fault e) h = h i

pub Holds-IfOk {ℓ} : {A : Type ℓ} (P : A → Type 0) (m : Result A) → Holds P m → IfOk P m
Holds-IfOk P (ok a) h = h
Holds-IfOk P (fault e) h = tt
