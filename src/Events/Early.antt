-- ===== src/Events/Early.antt =====
-- A timer counts from the last time at which RunOnce read the clock, not from the call of Set.
use nohands.Prelude.{ℕ, ◌+◌, ◌≤◌, ◌<◌, ◌≡◌, refl, ap, ◌∙◌, Bool, ℤ, pos, arith}
use nohands.Faults.{◌>>=◌}
use nohands.Faults.Post.{Holds, Post-bind, Post-weaken}
use nohands.Events.Timers.{Timers, nil, cons, u32_mod}
use nohands.Events.Weights.{total}
use nohands.Events.Heap.{without}
use nohands.Events.Expire.{by}
use nohands.Events.Dispatch.{Dispatcher, Handler, set, unlink, to_u32}
use nohands.Events.RunOnce.{elapsed, run_once}
use nohands.Events.Invariant.{is, Armed, set-Armed}
use nohands.Events.Handlers.{fired, Spares}
use nohands.Events.Loop.{Idle}
use nohands.Events.Calls.{Calls, run_once-Calls}

Armed-Idle : (i ms : ℕ) (d d' : Dispatcher) → Idle d → Armed i ms d d' → Idle d'
Armed-Idle i ms d d' h a = record {
  well = a.well;
  run_empty = a.run_left ∙ ap (unlink i) h.run_empty;
  iorun_empty = a.iorun_kept ∙ h.iorun_empty;
  awake = a.clock_kept.sleeping_kept ∙ h.awake;
}

others_not_due : (ms i b : ℕ) (ts : Timers) → total (without i (by ms (is i))) b ts ≡ 0
unfolding total
others_not_due ms i b nil = refl
others_not_due ms i b (cons j d cs ts) =
    ground (arith, others_not_due ms i (b + d) cs, others_not_due ms i b ts)

due_once :
    (i m ms : ℕ) (d d' : Dispatcher)
    → m < u32_mod
    → m ≤ ms
    → Armed i (to_u32 (pos m)) d d'
    → total (by ms (is i)) 0 d'.timers ≡ 1
due_once i m ms d d' h k a =
    ground (arith, a.timers_due (by ms (is i)), others_not_due ms i 0 d.timers)

-- On an idle dispatcher, a timer that no handler touches is set for no more milliseconds than have
-- gone by since RunOnce last stored the clock; time does not go backwards: it is called in the
-- very next round, though no time goes by between Set and the end of the round.
pub early :
    (handler : Handler) (max_sleep_ms : ℤ) (selected : Bool → ℕ → Bool) (d : Dispatcher)
    (i m now : ℕ)
    → Idle d
    → Spares i handler
    → d.last_run ≤ now
    → m < u32_mod
    → m ≤ elapsed d.last_run now
    → Holds
        (λ d'. fired i d'.events ≡ fired i d.events + 1)
        (set i (pos m) d
          >>= run_once handler max_sleep_ms
              (record { before = now; after = now; selected = selected }))
early handler max_sleep_ms selected d i m now h s forward lt le =
    Post-bind ⊥ (Armed i (to_u32 (pos m)) d) _ (set i (pos m) d) _ (set-Armed i (pos m) d h.well)
      (λ d' a.
        Post-weaken ⊥ (Calls i (elapsed d'.last_run now) d') _
          (run_once handler max_sleep_ms (record { before = now; after = now; selected = selected })
            d')
          (λ d'' c.
            c
            ∙ ap (λ n. n + total (by (elapsed d'.last_run now) (is i)) 0 d'.timers)
                (ap (fired i) a.events_kept)
            ∙ ap (λ n. fired i d.events + n)
                (due_once i m (elapsed d'.last_run now) d d' lt (rw a.clock_kept.last_run_kept le)
                  a))
          (run_once-Calls handler max_sleep_ms _ d' i (Armed-Idle i _ d d' h a)
            (rw a.clock_kept.last_run_kept forward) s))
