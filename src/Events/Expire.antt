-- ===== src/Events/Expire.antt =====
-- The loop of RunTimers: which timers it moves to the run list, and what is left in the heap.
use native.Mathlib.Nat.{zero-add}
use nohands.Prelude.{
  ℕ, zero, suc, ◌+◌, ◌-◌, ◌<◌, ◌≡◌, refl, ap, inl, inr, true, false, List, [], ◌∷◌, ◌++◌, Option,
  none, some, leb, if◌then◌else◌, Bool-cases, arith,
}
use nohands.Events.Timers.{
  Timers, nil, cons, timer, u32_mod, sub32, append, append_item, raise, expire, size,
}
use nohands.Events.Weights.{Weight, total, total_of, InRange, late, total-append, total-append_item}
use nohands.Events.Pairing.{late_lt, add32_eq}
use nohands.Events.Heap.{total-cons}

-- A weight after `ms` milliseconds, of the timers that are due later; and one of those due by then.
abbrev pub after : ℕ → Weight → Weight
after ms f i t = if leb t ms then 0 else f i (t - ms)

abbrev pub by : ℕ → (ℕ → ℕ) → Weight
by ms g i t = if leb t ms then g i else 0

-- The sum over a run list.
abbrev pub sum_run : (ℕ → ℕ) → List ℕ → ℕ
sum_run g [] = 0
sum_run g (i ∷ is) = g i + sum_run g is

pub sum_run-append :
    (g : ℕ → ℕ) (is js : List ℕ) → sum_run g (is ++ js) ≡ sum_run g is + sum_run g js
sum_run-append g [] js = omega arith
sum_run-append g (i ∷ is) js = omega (arith, sum_run-append g is js)

total-raise :
    (f : Weight) (b d : ℕ) (cs : Timers)
    → InRange (b + d) cs
    → total f b (raise d cs) ≡ total f (b + d) cs
unfolding total
total-raise f b d nil r = refl
total-raise f b d (cons j e cs ts) r =
    rw (add32_eq b d e (late_lt j (b + d + e) (omega arith)))
      (omega (arith, total-raise f b d ts (omega arith)))

total-after :
    (f : Weight) (ms b : ℕ) (cs : Timers) → ms < b → total (after ms f) b cs ≡ total f (b - ms) cs
unfolding total
total-after f ms b nil h = refl
total-after f ms b (cons j e cs ts) h =
    let later : b + e - ms ≡ b - ms + e = omega arith in
    ground (
      arith,
      ap (f j) later,
      ap (λ t. total f t cs) later,
      total-after f ms (b + e) cs (omega arith),
      total-after f ms b ts h,
    )

total-by : (g : ℕ → ℕ) (ms b : ℕ) (cs : Timers) → ms < b → total (by ms g) b cs ≡ 0
unfolding total
total-by g ms b nil h = refl
total-by g ms b (cons j e cs ts) h =
    ground (arith, total-by g ms (b + e) cs (omega arith), total-by g ms b ts h)

size-append : (ts us : Timers) → size (append ts us) ≡ size ts + size us
size-append nil us = omega arith
size-append (cons i d cs ts) us = omega (arith, size-append ts us)

size-raise : (d : ℕ) (ts : Timers) → size (raise d ts) ≡ size ts
size-raise d nil = refl
size-raise d (cons i e cs ts) = omega (arith, size-raise d ts)

total_aged :
    (f : Weight) (ms i d : ℕ) (cs : Timers)
    → ms < d
    → d < u32_mod
    → total_of f 0 (timer i (sub32 d ms) cs) ≡ f i (d - ms) + total f (d - ms) cs
unfolding total_of
total_aged f ms i d cs h k = let e : 0 + sub32 d ms ≡ d - ms = omega arith in rw e refl

expire-due :
    (fuel ms i d : ℕ) (before cs ts : Timers) (run : List ℕ)
    → leb d ms ≡ true
    → expire (suc fuel) ms before (cons i d cs ts) run
      ≡ expire fuel ms before (append ts (raise d cs)) (run ++ i ∷ [])
unfolding expire
expire-due fuel ms i d before cs ts run e = rw (e, expire) refl

expire-later :
    (fuel ms i d : ℕ) (before cs ts : Timers) (run : List ℕ)
    → leb d ms ≡ false
    → expire (suc fuel) ms before (cons i d cs ts) run
      ≡ expire fuel ms (append_item before (timer i (sub32 d ms) cs)) ts run
unfolding expire
expire-later fuel ms i d before cs ts run e = rw (e, expire) refl

-- The loop ends, and it has parted the timers into those due by `ms` and the others.
abbrev pub Parted :
    Weight → (ℕ → ℕ) → ℕ → Timers → Timers → List ℕ → Option (Timers × List ℕ) → Type 0
Parted f g ms before rest run none = ⊥
Parted f g ms before rest run (some (kept, run')) =
    (total f 0 kept ≡ total f 0 before + total (after ms f) 0 rest)
    × (sum_run g run' ≡ sum_run g run + total (by ms g) 0 rest)

Parted-resp :
    (f : Weight) (g : ℕ → ℕ) (ms : ℕ) (before before' rest rest' : Timers) (run run' : List ℕ)
    (r : Option (Timers × List ℕ))
    → total f 0 before' + total (after ms f) 0 rest' ≡ total f 0 before + total (after ms f) 0 rest
    → sum_run g run' + total (by ms g) 0 rest' ≡ sum_run g run + total (by ms g) 0 rest
    → Parted f g ms before' rest' run' r
    → Parted f g ms before rest run r
Parted-resp f g ms before before' rest rest' run run' none h k p = p
Parted-resp f g ms before before' rest rest' run run' (some (kept, is)) h k p =
    (omega arith, omega arith)

module _ (f : Weight) (g : ℕ → ℕ) (ms i d : ℕ) (before cs ts : Timers) (run : List ℕ)
    (r : InRange 0 (cons i d cs ts)) where
  due-kept :
      leb d ms ≡ true
      → total f 0 before + total (after ms f) 0 (append ts (raise d cs))
        ≡ total f 0 before + total (after ms f) 0 (cons i d cs ts)
  due-kept e = ground (
    arith,
    ap (after ms f i) (zero-add d),
    total-cons late 0 i d cs ts,
    total-cons (after ms f) 0 i d cs ts,
    total-append (after ms f) 0 ts (raise d cs),
    total-raise (after ms f) 0 d cs,
  )

  due-run :
      leb d ms ≡ true
      → sum_run g (run ++ i ∷ []) + total (by ms g) 0 (append ts (raise d cs))
        ≡ sum_run g run + total (by ms g) 0 (cons i d cs ts)
  due-run e = ground (
    arith,
    sum_run-append g run (i ∷ []),
    ap (by ms g i) (zero-add d),
    total-cons late 0 i d cs ts,
    total-cons (by ms g) 0 i d cs ts,
    total-append (by ms g) 0 ts (raise d cs),
    total-raise (by ms g) 0 d cs,
  )

  later-kept :
      leb d ms ≡ false
      → total f 0 (append_item before (timer i (sub32 d ms) cs)) + total (after ms f) 0 ts
        ≡ total f 0 before + total (after ms f) 0 (cons i d cs ts)
  later-kept e = ground (
    arith,
    total-cons late 0 i d cs ts,
    total-cons (after ms f) 0 i d cs ts,
    total-append_item f 0 before (timer i (sub32 d ms) cs),
    total_aged f ms i d cs,
    late_lt i (0 + d),
    ap (after ms f i) (zero-add d),
    total-after f ms (0 + d) cs,
    ap (λ b. total f (b - ms) cs) (zero-add d),
  )

  later-run :
      leb d ms ≡ false
      → sum_run g run + total (by ms g) 0 ts ≡ sum_run g run + total (by ms g) 0 (cons i d cs ts)
  later-run e = ground (
    arith,
    total-cons (by ms g) 0 i d cs ts,
    ap (by ms g i) (zero-add d),
    total-by g ms (0 + d) cs,
  )

expire-nil :
    (f : Weight) (g : ℕ → ℕ) (fuel ms : ℕ) (before : Timers) (run : List ℕ)
    → Parted f g ms before nil run (expire (suc fuel) ms before nil run)
unfolding expire total
expire-nil f g fuel ms before run = (omega arith, omega arith)

pub expire-Parted :
    (f : Weight) (g : ℕ → ℕ) (fuel ms : ℕ) (before rest : Timers) (run : List ℕ)
    → size rest < fuel
    → InRange 0 rest
    → Parted f g ms before rest run (expire fuel ms before rest run)
expire-Parted f g zero ms before rest run h r = absurd (omega arith)
expire-Parted f g (suc fuel) ms before nil run h r = expire-nil f g fuel ms before run
expire-Parted f g (suc fuel) ms before (cons i d cs ts) run h r = elim (Bool-cases (leb d ms)) [
  | inl e ↦ rw (expire-due fuel ms i d before cs ts run e) (
      Parted-resp f g ms before before (cons i d cs ts) (append ts (raise d cs)) run (run ++ i ∷ [])
        _ (due-kept f g ms i d before cs ts run r e) (due-run f g ms i d before cs ts run r e)
        (expire-Parted f g fuel ms before (append ts (raise d cs)) (run ++ i ∷ [])
          (omega (arith, size-append ts (raise d cs), size-raise d cs))
          (omega (
            arith,
            total-cons late 0 i d cs ts,
            total-append late 0 ts (raise d cs),
            total-raise late 0 d cs (omega (arith, total-cons late 0 i d cs ts)),
          ))))
  | inr e ↦ rw (expire-later fuel ms i d before cs ts run e) (
      Parted-resp f g ms before (append_item before (timer i (sub32 d ms) cs)) (cons i d cs ts) ts
        run run _ (later-kept f g ms i d before cs ts run r e)
        (later-run f g ms i d before cs ts run r e)
        (expire-Parted f g fuel ms (append_item before (timer i (sub32 d ms) cs)) ts run
          (omega arith) (omega (arith, total-cons late 0 i d cs ts))))
]
