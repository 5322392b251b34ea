-- ===== src/Events/Calls.antt =====
-- RunOnce calls the timers that are due.
use nohands.Prelude.{ℕ, ◌+◌, ◌≤◌, ◌≡◌, refl, ap, ◌∙◌, true, [], length, ℤ, pos, negsuc, arith}
use nohands.Faults.{ok}
use nohands.Faults.Post.{Holds, Post-bind, Post-if, Post-weaken}
use nohands.Events.Timers.{Timers, nil, cons, is_nil}
use nohands.Events.Weights.{Weight, total}
use nohands.Events.Expire.{after, by}
use nohands.Events.Dispatch.{Dispatcher, Handler, run_timers}
use nohands.Events.RunOnce.{
  Round, clock_back, elapsed, run_sockets, wait, run_once, nothing_to_wait_for,
}
use nohands.Events.Invariant.{is, WellFormed}
use nohands.Events.Handlers.{only, fired, Spares}
use nohands.Events.Fires.{Ran, run_timers-Ran, total-add, total-nil}
use nohands.Events.Loop.{Idle, SocketsRan, woken, woken-Running, woken-kept, run_sockets-SocketsRan}

-- Timer `j` has been called as often as it is due `ms` milliseconds after `m_last_run`.
abbrev pub Calls : ℕ → ℕ → Dispatcher → Dispatcher → Type 0
Calls j ms d d' = fired j d'.events ≡ fired j d.events + total (by ms (is j)) 0 d.timers

-- Time does not go backwards.
clock_forward :
    (now : ℕ) (d : Dispatcher) → d.last_run ≤ now → (clock_back now d).last_run ≡ d.last_run
clock_forward now d h = ground arith

counted :
    (j ms ms' : ℕ) (d w d' : Dispatcher)
    → ms' ≡ ms
    → w.timers ≡ d.timers
    → fired j w.events ≡ fired j d.events
    → Calls j ms' w d'
    → Calls j ms d d'
counted j ms ms' d w d' h k e c =
    omega
      (arith, ap (λ m. total (by m (is j)) 0 d.timers) h, ap (λ ts. total (by ms' (is j)) 0 ts) k)

-- What is due at once is called before the wait, the rest after it.
by-split : (ms j i t : ℕ) → by 0 (is j) i t + after 0 (only j (by ms (is j))) i t ≡ by ms (is j) i t
by-split ms j i t = ground arith

total-only :
    (ms j b : ℕ) (ts : Timers) → total (only j (by ms (is j))) b ts ≡ total (by ms (is j)) b ts
unfolding total
total-only ms j b nil = refl
total-only ms j b (cons i d cs ts) =
    ground (arith, total-only ms j (b + d) cs, total-only ms j b ts)

-- A round of RunTimers at once, and then one after `ms`.
then_called :
    (handler : Handler) (j ms : ℕ) (d d' d'' : Dispatcher)
    → Spares j handler
    → Ran handler 0 d d'
    → Calls j ms d' d''
    → Calls j ms d d''
then_called handler j ms d d' d'' s a c = omega (
  arith,
  a.called j s,
  a.left j s (by ms (is j)),
  total-only ms j 0 d'.timers,
  total-add (by 0 (is j)) (after 0 (only j (by ms (is j)))) (by ms (is j)) 0 d.timers
      (by-split ms j),
)

empty_total : (f : Weight) (ts : Timers) → is_nil ts ≡ true → total f 0 ts ≡ 0
empty_total f nil e = total-nil f
empty_total f (cons i d cs ts) e = cc

none_left :
    (j ms : ℕ) (d : Dispatcher) → is_nil d.timers ≡ true → total (by ms (is j)) 0 d.timers ≡ 0
none_left j ms d e = empty_total (by ms (is j)) d.timers e

module _ (handler : Handler) (max_sleep_ms : ℤ) (r : Round) (d : Dispatcher) (j : ℕ)
    (forward : d.last_run ≤ r.before) (spared : Spares j handler) where
  wait-Calls :
      WellFormed d
      → d.run ≡ []
      → Holds (Calls j (elapsed d.last_run r.after) d) (wait handler max_sleep_ms r d)
  unfolding wait
  wait-Calls w h =
      let k = woken-Running max_sleep_ms r d w h in
      let e = woken-kept max_sleep_ms r d in
      Post-bind ⊥ (Ran handler _ (woken max_sleep_ms r d)) _
        (run_timers handler _ (woken max_sleep_ms r d)) _
        (run_timers-Ran handler _ (woken max_sleep_ms r d) (k.0) (k.1))
        (λ d' a.
          Post-weaken ⊥ (SocketsRan handler d') _
            (run_sockets handler r.selected (length d'.iorun) d')
            (λ d'' l.
              counted j (elapsed d.last_run r.after) _ d (woken max_sleep_ms r d) d''
                (ap (λ t. elapsed t r.after)
                  (clock_forward r.before (record d { iorun = d.sockets; sockets = [] }) forward))
                (e.0) (e.1 j) (l.1 j spared ∙ a.called j spared))
            (run_sockets-SocketsRan handler r.selected (length d'.iorun) d'
              (a.well, a.run_empty, a.clock_kept.sleeping_kept ∙ k.2) (omega arith)))

idle_timers :
    (max_sleep_ms : ℤ) (d : Dispatcher)
    → nothing_to_wait_for max_sleep_ms d ≡ true
    → is_nil d.timers ≡ true
idle_timers (pos m) d e = cc
idle_timers (negsuc m) d e = ground arith

-- A round of RunOnce on an idle dispatcher, while time does not go backwards: no assertion fails,
-- and a timer that no handler sets or cancels is called exactly as often as it is due by the end
-- of the wait.
pub run_once-Calls :
    (handler : Handler) (max_sleep_ms : ℤ) (r : Round) (d : Dispatcher) (j : ℕ)
    → Idle d
    → d.last_run ≤ r.before
    → Spares j handler
    → Holds (Calls j (elapsed d.last_run r.after) d) (run_once handler max_sleep_ms r d)
unfolding run_once
run_once-Calls handler max_sleep_ms r d j i forward spared =
    let ms = elapsed d.last_run r.after in
    simp i.awake (
      Post-bind ⊥ (Ran handler 0 d) _ (run_timers handler 0 d) _
        (run_timers-Ran handler 0 d i.well i.run_empty)
        (λ d' a.
          Post-if ⊥ _ (nothing_to_wait_for max_sleep_ms d') (ok d') _
            (λ e.
              then_called handler j ms d d' d' spared a
                (omega (arith, none_left j ms d' (idle_timers max_sleep_ms d' e))))
            (λ e.
              Post-weaken ⊥ (Calls j (elapsed d'.last_run r.after) d') _
                (wait handler max_sleep_ms r d')
                (λ d'' c. then_called handler j ms d d' d'' spared a (
                  counted j ms (elapsed d'.last_run r.after) d' d' d''
                    (ap (λ t. elapsed t r.after) a.clock_kept.last_run_kept) refl refl c))
                (wait-Calls handler max_sleep_ms r d' j (rw a.clock_kept.last_run_kept forward)
                  spared a.well a.run_empty))))
