-- ===== src/Events/Fires.antt =====
-- RunTimers: which timers are called, and how the others are left.
use nohands.Prelude.{
  ℕ, ◌+◌, ◌≤◌, ◌≡◌, refl, ap, ◌∙◌, true, false, List, [], Option, none, some, leb, leb→le, length,
  arith,
}
use nohands.Faults.{Result, ok, ◌>>=◌}
use nohands.Faults.Post.{Holds, Post-bind, Post-if, Post-weaken, Post-both, Holds-all}
use nohands.Events.Timers.{Timers, nil, cons, expire, pair_timers, list_length, size, is_nil}
use nohands.Events.Weights.{Weight, total, InRange, late}
use nohands.Events.Pairing.{total-pair_timers}
use nohands.Events.Heap.{mark}
use nohands.Events.Roots.{list_length-pair_timers}
use nohands.Events.Expire.{after, by, sum_run, Parted, expire-Parted}
use nohands.Events.Dispatch.{Dispatcher, Handler, merge_roots, expired, run_timers, run_expired}
use nohands.Events.Invariant.{is, WellFormed, ClockKept}
use nohands.Events.Handlers.{only, fired, Spares}
use nohands.Events.RunList.{RanAll, run_expired-RanAll}

pub total-nil : (f : Weight) → total f 0 nil ≡ 0
unfolding total
total-nil f = refl

-- Weights that add up.
pub total-add :
    (f g h : Weight) (b : ℕ) (ts : Timers)
    → ((i t : ℕ) → f i t + g i t ≡ h i t)
    → total f b ts + total g b ts ≡ total h b ts
unfolding total
total-add f g h b nil e = omega arith
total-add f g h b (cons i d cs ts) e =
    omega (arith, e i (b + d), total-add f g h (b + d) cs e, total-add f g h b ts e)

total-le :
    (f g : Weight) (b : ℕ) (ts : Timers) → ((i t : ℕ) → f i t ≤ g i t) → total f b ts ≤ total g b ts
unfolding total
total-le f g b nil e = omega arith
total-le f g b (cons i d cs ts) e =
    omega (arith, e i (b + d), total-le f g (b + d) cs e, total-le f g b ts e)

after-late : (ms i t : ℕ) → after ms late i t ≤ late i t
after-late ms i t = ground arith

after-by : (ms j i t : ℕ) → after ms (mark j) i t + by ms (is j) i t ≡ mark j i t
after-by ms j i t = ground arith

abbrev Merged : Timers → Timers → Type 0
Merged kept ts = ((f : Weight) → total f 0 ts ≡ total f 0 kept) × (list_length ts ≤ 1)

not_nil : (kept : Timers) → 2 ≤ list_length kept → is_nil kept ≡ false
not_nil nil h = absurd (omega arith)
not_nil (cons i d cs ts) h = refl

pair_timers-Merged :
    (kept : Timers)
    → InRange 0 kept
    → 2 ≤ list_length kept
    → Holds
        (λ ts. ((f : Weight) → total f 0 ts ≡ total f 0 kept) × (list_length ts ≡ 1))
        (pair_timers kept nil 0)
pair_timers-Merged kept r h =
    Post-both ⊥ _ _ (pair_timers kept nil 0)
      (Holds-all _ late (pair_timers kept nil 0) (λ f.
        Post-weaken ⊥ _ _ (pair_timers kept nil 0) (λ ts e. omega (arith, total-nil f))
          (total-pair_timers f 0 0 kept nil (not_nil kept h) r)))
      (Post-weaken ⊥ _ _ (pair_timers kept nil 0) (λ ts e. omega arith)
        (list_length-pair_timers kept nil 0 (not_nil kept h)))

merge_roots-Merged : (kept : Timers) → InRange 0 kept → Holds (Merged kept) (merge_roots kept)
unfolding merge_roots
merge_roots-Merged kept r =
    Post-if ⊥ (Merged kept) (leb 2 (list_length kept)) _ (ok kept)
      (λ e.
        Post-bind ⊥ _ _ (pair_timers kept nil 0) _ (pair_timers-Merged kept r (leb→le 2 _ e))
          (λ ts h. rw (h.1) (h.0, omega (arith, h.1))))
      (λ e. (λ f. refl, ground arith))

-- The state in which RunTimers starts to call timers.
record Expired (ms : ℕ) (d : Dispatcher) (ts : Timers) (run : List ℕ) : Type 0 where
  single : list_length ts ≤ 1
  left : (f : Weight) → total f 0 ts ≡ total (after ms f) 0 d.timers
  called : (g : ℕ → ℕ) → sum_run g run ≡ total (by ms g) 0 d.timers

Expired-WellFormed :
    (ms : ℕ) (d : Dispatcher) (ts : Timers) (run : List ℕ)
    → WellFormed d
    → d.run ≡ []
    → Expired ms d ts run
    → WellFormed (record d { timers = ts; run = run })
Expired-WellFormed ms d ts run w h e = record {
  single = e.single;
  in_range =
      omega
        (arith, e.left late, total-le (after ms late) late 0 d.timers (after-late ms), w.in_range);
  once = λ i. omega (
    arith,
    e.left (mark i),
    e.called (is i),
    total-add (after ms (mark i)) (by ms (is i)) (mark i) 0 d.timers (after-by ms i),
    w.once i,
  );
}

-- RunTimers fails no assertion; the run list is empty at the end, the invariant is kept, and a timer
-- that no handler sets or cancels has been called as often as it was due, and is due later if not.
pub record Ran (handler : Handler) (ms : ℕ) (d d' : Dispatcher) : Type 0 where
  pub well : WellFormed d'
  pub run_empty : d'.run ≡ []
  pub iorun_le : length d'.iorun ≤ length d.iorun
  pub clock_kept : ClockKept d d'
  pub called :
      (j : ℕ)
      → Spares j handler
      → fired j d'.events ≡ fired j d.events + total (by ms (is j)) 0 d.timers
  pub left :
      (j : ℕ)
      → Spares j handler
      → (f : Weight) → total (only j f) 0 d'.timers ≡ total (after ms (only j f)) 0 d.timers

Expired-Ran :
    (handler : Handler) (ms : ℕ) (d d' : Dispatcher) (ts : Timers) (run : List ℕ)
    → Expired ms d ts run
    → RanAll handler (record d { timers = ts; run = run }) d'
    → Ran handler ms d d'
Expired-Ran handler ms d d' ts run e r = record {
  well = r.0;
  run_empty = r.1;
  iorun_le = r.2;
  clock_kept = record { sleeping_kept = (r.3).sleeping_kept; last_run_kept = (r.3).last_run_kept };
  called = λ j s. omega (arith, (r.4 j s).1, e.called (is j), ap (sum_run (is j)) (r.1));
  left = λ j s f. (r.4 j s).0 f ∙ e.left (only j f);
}

-- From the end of the loop over the timers on.
abbrev from_expired : Handler → Dispatcher → Timers × List ℕ → Result Dispatcher
from_expired handler d (kept, run) = do
  ts ← merge_roots kept
  run_expired handler (length run) (record d { timers = ts; run = run })

from_expired-Ran :
    (handler : Handler) (ms : ℕ) (d : Dispatcher) (r : Option (Timers × List ℕ))
    → WellFormed d
    → d.run ≡ []
    → ((f : Weight) (g : ℕ → ℕ) → Parted f g ms nil d.timers [] r)
    → Holds (Ran handler ms d) (expired r >>= from_expired handler d)
from_expired-Ran handler ms d none w h p = p late (λ i. 0)
from_expired-Ran handler ms d (some (kept, run)) w h p =
    Post-bind ⊥ _ _ (merge_roots kept) _ (merge_roots-Merged kept kept_range) (λ ts m.
      let e = parted ts m in
      Post-weaken ⊥ _ _ (run_expired handler (length run) (record d { timers = ts; run = run }))
        (λ d' r. Expired-Ran handler ms d d' ts run e r)
        (run_expired-RanAll handler (length run) (record d { timers = ts; run = run })
          (Expired-WellFormed ms d ts run w h e) (omega arith)))
  where
    kept_range : InRange 0 kept
    kept_range = omega (
      arith,
      (p late (λ i. 0)).0,
      total-nil late,
      total-le (after ms late) late 0 d.timers (after-late ms),
      w.in_range,
    )

    parted : (ts : Timers) → Merged kept ts → Expired ms d ts run
    parted ts m = record {
      single = m.1;
      left = λ f. omega (arith, m.0 f, (p f (λ i. 0)).0, total-nil f);
      called = λ g. omega (arith, (p late g).1);
    }

one_root : (n : ℕ) → n ≤ 1 → leb n 1 ≡ true
one_root n h = ground arith

pub run_timers-Ran :
    (handler : Handler) (ms : ℕ) (d : Dispatcher)
    → WellFormed d
    → d.run ≡ []
    → Holds (Ran handler ms d) (run_timers handler ms d)
unfolding run_timers
run_timers-Ran handler ms d w h = rw (one_root (list_length d.timers) w.single) (
    from_expired-Ran handler ms d (expire (size d.timers + 1) ms nil d.timers []) w h
      (λ f g. expire-Parted f g (size d.timers + 1) ms nil d.timers [] (omega arith) w.in_range))
