-- ===== src/Events/Heap.antt =====
-- AddTimer and RemoveTimer put one timer into the heap and take one out of it.
use native.Mathlib.Nat.{zero-add}
use nohands.Prelude.{
  ℕ, ◌+◌, ◌≤◌, ◌<◌, ◌≡◌, refl, ap, inl, inr, true, false, ltb, ◌==◌, if◌then◌else◌, Bool-cases,
  arith,
}
use nohands.Faults.{ok, ◌>>=◌}
use nohands.Faults.Post.{Holds, Post-bind, Post-map, Post-weaken}
use nohands.Events.Timers.{
  Timers, nil, cons, timer, u32_mod, sub32, append, add_timer, orphans, remove_timer, contains,
  list_length, pair_timers,
}
use nohands.Events.Weights.{Weight, total, total_of, InRange, late, total-append, total-append_item}
use nohands.Events.Pairing.{total_moved, total-pair_timers}

-- Weights that see only one timer, or all but one.
abbrev pub mark : ℕ → Weight
mark i j t = if j == i then 1 else 0

abbrev pub without : ℕ → Weight → Weight
without i f j t = if j == i then 0 else f j t

pub list_length-append :
    (ts us : Timers) → list_length (append ts us) ≡ list_length ts + list_length us
list_length-append nil us = omega arith
list_length-append (cons i d cs ts) us = omega (arith, list_length-append ts us)

pub total-without :
    (f : Weight) (i b : ℕ) (ts : Timers)
    → total (mark i) b ts ≡ 0
    → total (without i f) b ts ≡ total f b ts
unfolding total
total-without f i b nil h = refl
total-without f i b (cons j d cs ts) h =
    ground (arith, total-without f i (b + d) cs, total-without f i b ts)

pub contains-of_mark : (i b : ℕ) (ts : Timers) → total (mark i) b ts ≡ 0 → contains i ts ≡ false
unfolding total
contains-of_mark i b nil h = refl
contains-of_mark i b (cons j d cs ts) h =
    ground (arith, contains-of_mark i (b + d) cs, contains-of_mark i b ts)

pub mark-of_contains : (i b : ℕ) (ts : Timers) → contains i ts ≡ false → total (mark i) b ts ≡ 0
unfolding total
mark-of_contains i b nil h = refl
mark-of_contains i b (cons j d cs ts) h =
    ground (arith, mark-of_contains i (b + d) cs, mark-of_contains i b ts)

pub total-add_timer :
    (f : Weight) (i ms : ℕ) (ts : Timers)
    → InRange 0 ts
    → ms < u32_mod
    → total f 0 (add_timer i ms ts) ≡ f i ms + total f 0 ts
unfolding add_timer total total_of
total-add_timer f i ms nil r h = omega (arith, ap (f i) (zero-add ms))
total-add_timer f i ms (cons j d cs ts) r h = elim (Bool-cases (ltb d ms)) [
  | inl e ↦ rw e omega (
    arith,
    ap (f i) (zero-add ms),
    total_moved f 0 (timer j d cs) (timer i ms nil) (ground arith) (ground arith),
  )
  | inr e ↦ rw e omega (
    arith,
    ap (f i) (zero-add ms),
    total-append_item f 0 ts (timer i ms (cons j (sub32 d ms) cs nil)),
    total_moved f 0 (timer i ms nil) (timer j d cs) (ground arith) (omega arith),
  )
]

pub list_length-add_timer :
    (i ms : ℕ) (ts : Timers) → list_length ts ≤ 1 → list_length (add_timer i ms ts) ≤ 1
unfolding add_timer
list_length-add_timer i ms nil h = omega arith
list_length-add_timer i ms (cons j d cs ts) h =
    ground (arith, list_length-append ts (cons i ms (cons j (sub32 d ms) cs nil) nil))

total-orphans :
    (f : Weight) (b d : ℕ) (cs : Timers)
    → InRange (b + d) cs
    → Holds (λ ts. total f b ts ≡ total f (b + d) cs) (orphans cs d)
unfolding orphans total
total-orphans f b d nil r = refl
total-orphans f b d (cons k e cs ts) r =
    Post-weaken ⊥ _ _ (pair_timers (cons k e cs ts) nil d) (λ us h. omega arith)
      (total-pair_timers f b d (cons k e cs ts) nil refl r)

nothing_removed :
    (f : Weight) (i b : ℕ)
    → Holds (λ us. total f b us ≡ total (without i f) b nil) (remove_timer i nil)
unfolding remove_timer total
nothing_removed f i b = refl

pub remove_timer-head :
    (i j d : ℕ) (cs ts : Timers)
    → (j == i) ≡ true
    → remove_timer i (cons j d cs ts) ≡ (orphans cs d >>= λ up. ok (append up ts))
unfolding remove_timer
remove_timer-head i j d cs ts e = rw (e, remove_timer) refl

pub remove_timer-below :
    (i j d : ℕ) (cs ts : Timers)
    → (j == i) ≡ false
    → remove_timer i (cons j d cs ts)
      ≡ (remove_timer i cs >>= λ cs'. remove_timer i ts >>= λ ts'. ok (cons j d cs' ts'))
unfolding remove_timer
remove_timer-below i j d cs ts e = rw (e, remove_timer) refl

pub total-cons :
    (f : Weight) (b i d : ℕ) (cs ts : Timers)
    → total f b (cons i d cs ts) ≡ f i (b + d) + total f (b + d) cs + total f b ts
unfolding total
total-cons f b i d cs ts = refl

-- RemoveTimer of a timer that is at most once in the heap.
pub total-remove_timer :
    (f : Weight) (i b : ℕ) (ts : Timers)
    → InRange b ts
    → total (mark i) b ts ≤ 1
    → Holds (λ us. total f b us ≡ total (without i f) b ts) (remove_timer i ts)
total-remove_timer f i b nil r u = nothing_removed f i b
total-remove_timer f i b (cons j d cs ts) r u = elim (Bool-cases (j == i)) [
  | inl e ↦ rw (remove_timer-head i j d cs ts e) (
      Post-map ⊥ (λ up. total f b up ≡ total f (b + d) cs) _ (orphans cs d) (λ up. append up ts)
        (total-orphans f b d cs (ground (arith, total-cons late b j d cs ts)))
        (λ up h. ground (
          arith,
          total-cons (mark i) b j d cs ts,
          total-cons (without i f) b j d cs ts,
          total-append f b up ts,
          total-without f i (b + d) cs,
          total-without f i b ts,
        )))
  | inr e ↦ rw (remove_timer-below i j d cs ts e) (
      Post-bind ⊥ (λ cs'. total f (b + d) cs' ≡ total (without i f) (b + d) cs) _
        (remove_timer i cs) _
        (total-remove_timer f i (b + d) cs (ground (arith, total-cons late b j d cs ts))
          (ground (arith, total-cons (mark i) b j d cs ts)))
        (λ cs' h.
          Post-map ⊥ (λ ts'. total f b ts' ≡ total (without i f) b ts) _ (remove_timer i ts)
            (λ ts'. cons j d cs' ts')
            (total-remove_timer f i b ts (ground (arith, total-cons late b j d cs ts))
              (ground (arith, total-cons (mark i) b j d cs ts)))
            (λ ts' k.
              ground (arith, total-cons f b j d cs' ts', total-cons (without i f) b j d cs ts))))
]
