-- ===== src/Events/Pairing.antt =====
-- Pairing timers keeps the times at which they are due.
use nohands.Prelude.{
  ℕ, ◌+◌, ◌≤◌, ◌<◌, ◌≡◌, refl, ap, ◌∙◌, List, [], ◌∷◌, ◌++◌, reverse, inl, inr, false, ltb,
  Bool-cases, arith,
}
use mathlib.Core.List.{reverse-append}
use nohands.Faults.Post.{Holds}
use nohands.Events.Timers.{
  Timers, nil, cons, Timer, timer, u32_mod, add32, sub32, is_nil, pair_timers, under_last,
  under_first, pair, pair_all, collect, collect_all, collect_from, append_some,
}
use nohands.Events.Weights.{
  Weight, total, total_of, InRange, InRangeOf, late, total-append_item, total-prepend,
}

pub late_lt : (i t : ℕ) → late i t ≡ 0 → t < u32_mod
late_lt i t h = ground arith

InRangeOf-lt : (base : ℕ) (t : Timer) → InRangeOf base t → base + t.delta < u32_mod
unfolding total_of
InRangeOf-lt base t h = late_lt t.id (base + t.delta) (omega arith)

-- A delta from an earlier timer.
sub32_eq : (base a b : ℕ) → a ≤ b → base + b < u32_mod → base + a + sub32 b a ≡ base + b
sub32_eq base a b h k = omega arith

pub add32_eq :
    (base delta d : ℕ) → base + delta + d < u32_mod → base + add32 d delta ≡ base + delta + d
add32_eq base delta d h = omega arith

pub total_moved :
    (f : Weight) (base : ℕ) (a b : Timer)
    → a.delta ≤ b.delta
    → InRangeOf base b
    → total_of f (base + a.delta) (timer b.id (sub32 b.delta a.delta) b.children)
      ≡ total_of f base b
unfolding total_of
total_moved f base a b h r = rw (sub32_eq base a.delta b.delta h (InRangeOf-lt base b r)) refl

module _ (f : Weight) (base : ℕ) (a b : Timer) (h : a.delta ≤ b.delta) (r : InRangeOf base b) where
  total-under_last : total_of f base (under_last a b) ≡ total_of f base a + total_of f base b
  unfolding total_of
  total-under_last = omega (
    arith,
    total_moved f base a b h r,
    total-append_item f (base + a.delta) a.children (timer b.id (sub32 b.delta a.delta) b.children),
  )

  total-under_first : total_of f base (under_first a b) ≡ total_of f base a + total_of f base b
  unfolding total_of
  total-under_first = omega (
    arith,
    total_moved f base a b h r,
    total-prepend f (base + a.delta) (timer b.id (sub32 b.delta a.delta) b.children) a.children,
  )

pub total-pair :
    (f : Weight) (base : ℕ) (a b : Timer)
    → InRangeOf base a
    → InRangeOf base b
    → total_of f base (pair a b) ≡ total_of f base a + total_of f base b
unfolding pair
total-pair f base a b ra rb = elim (Bool-cases (ltb b.delta a.delta)) [
  | inl e ↦ rw e (total-under_last f base b a (ground arith) ra ∙ omega arith)
  | inr e ↦ rw e (total-under_last f base a b (ground arith) rb)
]

pub total-collect :
    (f : Weight) (base : ℕ) (a b : Timer)
    → InRangeOf base a
    → InRangeOf base b
    → total_of f base (collect a b) ≡ total_of f base a + total_of f base b
unfolding collect
total-collect f base a b ra rb = elim (Bool-cases (ltb b.delta a.delta)) [
  | inl e ↦ rw e (total-under_first f base b a (ground arith) ra ∙ omega arith)
  | inr e ↦ rw e (total-under_first f base a b (ground arith) rb)
]

-- Over a list of timers.
total_list : Weight → ℕ → List Timer → ℕ
total_list f base [] = 0
total_list f base (t ∷ ts) = total_of f base t + total_list f base ts

total-collect_all :
    (f : Weight) (base : ℕ) (a : Timer) (ts : List Timer)
    → InRangeOf base a
    → total_list late base ts ≡ 0
    → total_of f base (collect_all a ts) ≡ total_of f base a + total_list f base ts
unfolding collect_all total_list
total-collect_all f base a [] ra rs = omega arith
total-collect_all f base a (b ∷ ts) ra rs = omega (
  arith,
  total-collect f base a b ra rb,
  total-collect_all f base (collect a b) ts (omega (arith, total-collect late base a b ra rb))
      (omega arith),
)
  where
    rb : InRangeOf base b
    rb = omega arith

-- The sum over a sibling, with the parent's delta added.
total_raised :
    (f : Weight) (base delta i d : ℕ) (cs : Timers)
    → base + delta + d < u32_mod
    → total_of f base (timer i (add32 d delta) cs)
      ≡ f i (base + delta + d) + total f (base + delta + d) cs
unfolding total_of
total_raised f base delta i d cs h = rw (add32_eq base delta d h) refl

total-pair_all :
    (f : Weight) (base delta : ℕ) (ts : Timers)
    → InRange (base + delta) ts
    → total_list f base (pair_all delta ts) ≡ total f (base + delta) ts
unfolding pair_all total_list total
total-pair_all f base delta nil r = refl
total-pair_all f base delta (cons i d cs nil) r =
    omega (arith, total_raised f base delta i d cs (late_lt i _ (omega arith)))
total-pair_all f base delta (cons i d cs (cons j e ds ts)) r = omega (
  arith,
  total_raised f base delta i d cs hi,
  total_raised f base delta j e ds hj,
  total-pair f base (timer i (add32 d delta) cs) (timer j (add32 e delta) ds)
      (omega (arith, total_raised late base delta i d cs hi))
      (omega (arith, total_raised late base delta j e ds hj)),
  total-pair_all f base delta ts (omega arith),
)
  where
    hi : base + delta + d < u32_mod
    hi = late_lt i (base + delta + d) (omega arith)

    hj : base + delta + e < u32_mod
    hj = late_lt j (base + delta + e) (omega arith)

total_list-append :
    (f : Weight) (base : ℕ) (ts us : List Timer)
    → total_list f base (ts ++ us) ≡ total_list f base ts + total_list f base us
unfolding total_list
total_list-append f base [] us = omega arith
total_list-append f base (t ∷ ts) us = omega (arith, total_list-append f base ts us)

total_list-reverse :
    (f : Weight) (base : ℕ) (ts : List Timer)
    → total_list f base (reverse ts) ≡ total_list f base ts
unfolding total_list
total_list-reverse f base [] = refl
total_list-reverse f base (t ∷ ts) =
    ap (total_list f base) (reverse-append (t ∷ []) ts)
    ∙ omega (arith, total_list-append f base (reverse ts) (t ∷ []), total_list-reverse f base ts)

total-collect_from :
    (f : Weight) (base : ℕ) (dest : Timers) (ts : List Timer)
    → total_list late base ts ≡ 0
    → total f base (append_some dest (collect_from ts)) ≡ total f base dest + total_list f base ts
unfolding collect_from total_list
total-collect_from f base dest [] r = omega arith
total-collect_from f base dest (a ∷ ts) r = omega (
  arith,
  total-append_item f base dest (collect_all a ts),
  total-collect_all f base a ts (omega arith) (omega arith),
)

-- PairTimers on a list that is not empty.
pub total-pair_timers :
    (f : Weight) (base delta : ℕ) (siblings dest : Timers)
    → is_nil siblings ≡ false
    → InRange (base + delta) siblings
    → Holds
        (λ ts. total f base ts ≡ total f base dest + total f (base + delta) siblings)
        (pair_timers siblings dest delta)
unfolding pair_timers
total-pair_timers f base delta nil dest h r = cc
total-pair_timers f base delta (cons i d cs ts) dest h r = omega (
  arith,
  total-collect_from f base dest (reverse (pair_all delta (cons i d cs ts))) (
      omega (
        arith,
        total_list-reverse late base (pair_all delta (cons i d cs ts)),
        total-pair_all late base delta (cons i d cs ts) r,
      )),
  total_list-reverse f base (pair_all delta (cons i d cs ts)),
  total-pair_all f base delta (cons i d cs ts) r,
)
