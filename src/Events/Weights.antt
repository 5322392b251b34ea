-- ===== src/Events/Weights.antt =====
-- The timers of a heap with the times at which they are due, summed up by any weight: two heaps with
-- the same sums for all weights hold the same timers, due at the same times.
use nohands.Prelude.{ℕ, ◌+◌, ◌≡◌, refl, ltb, if◌then◌else◌, arith}
use nohands.Events.Timers.{Timers, nil, cons, Timer, u32_mod, append, append_item, prepend}

abbrev pub Weight : Type 0
Weight = ℕ → ℕ → ℕ

-- The sum over all timers, where those of the list count from `base`.
unfoldable pub total : Weight → ℕ → Timers → ℕ
total f base nil = 0
total f base (cons i d cs ts) = f i (base + d) + total f (base + d) cs + total f base ts

unfoldable pub total_of : Weight → ℕ → Timer → ℕ
unfolding total
total_of f base t = f t.id (base + t.delta) + total f (base + t.delta) t.children

abbrev pub late : Weight
late i t = if ltb t u32_mod then 0 else 1

-- The times at which timers are due fit an unsigned int.
abbrev pub InRange : ℕ → Timers → Type 0
InRange base ts = total late base ts ≡ 0

abbrev pub InRangeOf : ℕ → Timer → Type 0
InRangeOf base t = total_of late base t ≡ 0

pub total-append :
    (f : Weight) (b : ℕ) (ts us : Timers) → total f b (append ts us) ≡ total f b ts + total f b us
unfolding total
total-append f b nil us = omega arith
total-append f b (cons i d cs ts) us = omega (arith, total-append f b ts us)

pub total-prepend :
    (f : Weight) (b : ℕ) (t : Timer) (ts : Timers)
    → total f b (prepend t ts) ≡ total_of f b t + total f b ts
unfolding total total_of
total-prepend f b t ts = refl

pub total-append_item :
    (f : Weight) (b : ℕ) (ts : Timers) (t : Timer)
    → total f b (append_item ts t) ≡ total f b ts + total_of f b t
unfolding total total_of
total-append_item f b ts t = omega (arith, total-append f b ts (prepend t nil))
