-- ===== src/Events/Invariant.antt =====
-- The invariant of the dispatcher, and what Set and Cancel of a timer do to the timers.
use nohands.Prelude.{
  ℕ, ◌+◌, ◌≤◌, ◌<◌, ◌≡◌, refl, ap, sym, ◌∙◌, true, false, List, [], ◌∷◌, ◌==◌, if◌then◌else◌, ℤ,
  pos, negsuc, arith,
}
use nohands.Faults.Post.{Holds, Post-bind, Post-map, Post-if, Post-weaken, Post-both, Holds-all}
use nohands.Events.Timers.{Timers, nil, cons, u32_mod, add_timer, remove_timer, list_length}
use nohands.Events.Weights.{Weight, total, InRange, late}
use nohands.Events.Heap.{
  mark, without, total-add_timer, list_length-add_timer, total-remove_timer, contains-of_mark,
  mark-of_contains, total-without,
}
use nohands.Events.Roots.{list_length-remove_timer}
use nohands.Events.Expire.{sum_run}
use nohands.Events.Dispatch.{Dispatcher, member, unlink, linked, to_u32, remove, add, cancel, set}

abbrev pub is : ℕ → ℕ → ℕ
is i j = if j == i then 1 else 0

-- At most one root, as RunTimers asserts; deltas that do not wrap; and no timer twice in the heap and on
-- the run list.
pub record WellFormed (d : Dispatcher) : Type 0 where
  pub single : list_length d.timers ≤ 1
  pub in_range : InRange 0 d.timers
  pub once : (i : ℕ) → total (mark i) 0 d.timers + sum_run (is i) d.run ≤ 1

-- What only RunOnce changes.
pub record ClockKept (d d' : Dispatcher) : Type 0 where
  pub sleeping_kept : d'.sleeping ≡ d.sleeping
  pub last_run_kept : d'.last_run ≡ d.last_run

pub ClockKept-refl : (d : Dispatcher) → ClockKept d d
ClockKept-refl d = record { sleeping_kept = refl; last_run_kept = refl }

pub ClockKept-trans : (d d' d'' : Dispatcher) → ClockKept d d' → ClockKept d' d'' → ClockKept d d''
ClockKept-trans d d' d'' h k = record {
  sleeping_kept = k.sleeping_kept ∙ h.sleeping_kept;
  last_run_kept = k.last_run_kept ∙ h.last_run_kept;
}

-- The timers of a dispatcher after `i` has been taken off its list.
pub record Unlinked (i : ℕ) (d d' : Dispatcher) : Type 0 where
  pub well : WellFormed d'
  pub timers_left : (f : Weight) → total f 0 d'.timers ≡ total (without i f) 0 d.timers
  pub run_left : d'.run ≡ unlink i d.run
  pub events_kept : d'.events ≡ d.events
  pub iorun_kept : d'.iorun ≡ d.iorun
  pub clock_kept : ClockKept d d'

without-le : (f : Weight) (i b : ℕ) (ts : Timers) → total (without i f) b ts ≤ total f b ts
unfolding total
without-le f i b nil = omega arith
without-le f i b (cons j d cs ts) = ground (arith, without-le f i (b + d) cs, without-le f i b ts)

without-mark : (i b : ℕ) (ts : Timers) → total (without i (mark i)) b ts ≡ 0
unfolding total
without-mark i b nil = refl
without-mark i b (cons j d cs ts) = ground (arith, without-mark i (b + d) cs, without-mark i b ts)

sum_run-unlink : (i : ℕ) (js : List ℕ) → sum_run (is i) js ≤ 1 → sum_run (is i) (unlink i js) ≡ 0
sum_run-unlink i [] h = refl
sum_run-unlink i (j ∷ js) h = ground (arith, sum_run-unlink i js)

sum_run-unlink_le : (g : ℕ → ℕ) (i : ℕ) (js : List ℕ) → sum_run g (unlink i js) ≤ sum_run g js
sum_run-unlink_le g i [] = omega arith
sum_run-unlink_le g i (j ∷ js) = ground (arith, sum_run-unlink_le g i js)

member-sum_run : (i : ℕ) (js : List ℕ) → sum_run (is i) js ≡ 0 → member i js ≡ false
member-sum_run i [] h = refl
member-sum_run i (j ∷ js) h = ground (arith, member-sum_run i js)

sum_run-member : (i : ℕ) (js : List ℕ) → member i js ≡ false → sum_run (is i) js ≡ 0
sum_run-member i [] h = refl
sum_run-member i (j ∷ js) h = ground (arith, sum_run-member i js)

unlink-member : (i : ℕ) (js : List ℕ) → member i js ≡ false → unlink i js ≡ js
unlink-member i [] h = refl
unlink-member i (j ∷ js) h = ground (arith, unlink-member i js)

Unlinked-of :
    (i : ℕ) (d : Dispatcher) (ts : Timers)
    → WellFormed d
    → ((f : Weight) → total f 0 ts ≡ total (without i f) 0 d.timers)
    → list_length ts ≤ list_length d.timers
    → Unlinked i d (record d { timers = ts; run = unlink i d.run })
Unlinked-of i d ts w h k = record {
  well = record {
    single = omega (arith, w.single);
    in_range = omega (arith, h late, without-le late i 0 d.timers, w.in_range);
    once = λ j. omega (
      arith,
      h (mark j),
      without-le (mark j) i 0 d.timers,
      sum_run-unlink_le (is j) i d.run,
      w.once j,
    );
  };
  timers_left = h;
  run_left = refl;
  events_kept = refl;
  iorun_kept = refl;
  clock_kept = record { sleeping_kept = refl; last_run_kept = refl };
}

unlinked_lem :
    (i : ℕ) (d : Dispatcher)
    → WellFormed d
    → Holds
        (λ ts. Unlinked i d (record d { timers = ts; run = unlink i d.run }))
        (remove_timer i d.timers)
unlinked_lem i d w =
    Post-weaken ⊥
      (λ ts.
        ((f : Weight) → total f 0 ts ≡ total (without i f) 0 d.timers)
        × (list_length ts ≤ list_length d.timers))
      _ (remove_timer i d.timers) (λ ts h. Unlinked-of i d ts w h.0 h.1)
      (Post-both ⊥ _ _ (remove_timer i d.timers)
        (Holds-all _ late (remove_timer i d.timers)
          (λ f. total-remove_timer f i 0 d.timers w.in_range (omega (arith, w.once i))))
        (list_length-remove_timer i d.timers))

-- Where the timer is on no list, nothing is taken off.
not_linked : (i : ℕ) (d : Dispatcher) → WellFormed d → linked i d ≡ false → Unlinked i d d
not_linked i d w e = record {
  well = w;
  timers_left =
      λ f. sym (total-without f i 0 d.timers (mark-of_contains i 0 d.timers (ground arith)));
  run_left = sym (unlink-member i d.run (ground arith));
  events_kept = refl;
  iorun_kept = refl;
  clock_kept = ClockKept-refl d;
}

remove-Unlinked :
    (i : ℕ) (d : Dispatcher) → WellFormed d → linked i d ≡ true → Holds (Unlinked i d) (remove i d)
unfolding remove
remove-Unlinked i d w e = rw e (
    Post-map ⊥ _ _ (remove_timer i d.timers) (λ ts. record d { timers = ts; run = unlink i d.run })
      (unlinked_lem i d w) (λ ts h. h))

pub cancel-Unlinked : (i : ℕ) (d : Dispatcher) → WellFormed d → Holds (Unlinked i d) (cancel i d)
unfolding cancel
cancel-Unlinked i d w =
    Post-if ⊥ _ (linked i d) _ _ (remove-Unlinked i d w) (λ e. not_linked i d w e)

heap_free : (i : ℕ) (d d' : Dispatcher) → Unlinked i d d' → total (mark i) 0 d'.timers ≡ 0
heap_free i d d' u = u.timers_left (mark i) ∙ without-mark i 0 d.timers

run_free : (i : ℕ) (d d' : Dispatcher) → WellFormed d → Unlinked i d d' → sum_run (is i) d'.run ≡ 0
run_free i d d' w u = rw u.run_left (sum_run-unlink i d.run (omega (arith, w.once i)))

Unlinked-not_linked :
    (i : ℕ) (d d' : Dispatcher) → WellFormed d → Unlinked i d d' → linked i d' ≡ false
Unlinked-not_linked i d d' w u = ground (
  arith,
  contains-of_mark i 0 d'.timers (heap_free i d d' u),
  member-sum_run i d'.run (run_free i d d' w u),
)

-- The timers of a dispatcher after `i` has been set.
pub record Armed (i ms : ℕ) (d d' : Dispatcher) : Type 0 where
  pub well : WellFormed d'
  pub timers_due : (f : Weight) → total f 0 d'.timers ≡ f i ms + total (without i f) 0 d.timers
  pub run_left : d'.run ≡ unlink i d.run
  pub events_kept : d'.events ≡ d.events
  pub iorun_kept : d'.iorun ≡ d.iorun
  pub clock_kept : ClockKept d d'

to_u32_lt : (msec : ℤ) → to_u32 msec < u32_mod
to_u32_lt (pos n) = omega arith
to_u32_lt (negsuc n) = omega arith

add-Armed :
    (i ms : ℕ) (d d' : Dispatcher)
    → WellFormed d
    → ms < u32_mod
    → Unlinked i d d'
    → Holds (Armed i ms d) (add i ms d')
unfolding add
add-Armed i ms d d' w h u = rw (Unlinked-not_linked i d d' w u) (record {
  well = record {
    single = list_length-add_timer i ms d'.timers u.well.single;
    in_range = ground (arith, added late, u.well.in_range);
    once = λ j. ground (
      arith,
      added (mark j),
      ap (λ k. total (mark k) 0 d'.timers + sum_run (is k) d'.run) {x = i} {y = j},
      heap_free i d d' u,
      run_free i d d' w u,
      u.well.once j,
    );
  };
  timers_due = λ f. added f ∙ ap (λ t. f i ms + t) (u.timers_left f);
  run_left = u.run_left;
  events_kept = u.events_kept;
  iorun_kept = u.iorun_kept;
  clock_kept = record {
    sleeping_kept = u.clock_kept.sleeping_kept;
    last_run_kept = u.clock_kept.last_run_kept;
  };
})
  where
    added : (f : Weight) → total f 0 (add_timer i ms d'.timers) ≡ f i ms + total f 0 d'.timers
    added f = total-add_timer f i ms d'.timers u.well.in_range h

-- Set of a timer, linked or not, on a well-formed dispatcher fails no assertion and leaves it
-- well-formed: the timer is due after msec as an unsigned int, all others in the heap are due as
-- before, whatever becomes of the heap's shape, and the run list has all others in their order.
pub set-Armed :
    (i : ℕ) (msec : ℤ) (d : Dispatcher)
    → WellFormed d
    → Holds (Armed i (to_u32 msec) d) (set i msec d)
unfolding set
set-Armed i msec d w =
    Post-bind ⊥ _ _ (cancel i d) _ (cancel-Unlinked i d w)
      (λ d' u. add-Armed i (to_u32 msec) d d' w (to_u32_lt msec) u)
