-- ===== src/Events/RunList.antt =====
-- The last loop of RunTimers: the timers on the run list are called.
use nohands.Prelude.{
  ℕ, zero, suc, ◌≤◌, ◌≡◌, refl, ap, ◌∙◌, inl, inr, List, [], ◌∷◌, List-cases, length, arith,
}
use nohands.Faults.{ok, ◌>>=◌}
use nohands.Faults.Post.{Holds, Post-bind, Post-weaken}
use nohands.Events.Expire.{sum_run}
use nohands.Events.Dispatch.{timed, Dispatcher, Handler, call, run_expired}
use nohands.Events.Invariant.{is, WellFormed, ClockKept, ClockKept-refl}
use nohands.Events.Handlers.{Spares, SameTimer, Called, call-Called}

-- The timers on the run list are called, but for those that a handler takes off it.
abbrev pub RanAll : Handler → Dispatcher → Dispatcher → Type 0
RanAll handler d d' =
    WellFormed d'
    × (d'.run ≡ [])
    × (length d'.iorun ≤ length d.iorun)
    × ClockKept d d'
    × ((j : ℕ) → Spares j handler → SameTimer j d d')

ran_none : (handler : Handler) (d : Dispatcher) → WellFormed d → d.run ≡ [] → RanAll handler d d
ran_none handler d w e = (w, e, omega arith, ClockKept-refl d, λ j s. (λ f. refl, refl))

run_first :
    (handler : Handler) (fuel i : ℕ) (js : List ℕ) (d : Dispatcher)
    → d.run ≡ i ∷ js
    → run_expired handler (suc fuel) d
      ≡ (call handler (timed i) (record d { run = js }) >>= run_expired handler fuel)
unfolding run_expired
run_first handler fuel i js d e = rw (e, run_expired) refl

run_none :
    (handler : Handler) (fuel : ℕ) (d : Dispatcher) → d.run ≡ [] → run_expired handler fuel d ≡ ok d
unfolding run_expired
run_none handler zero d e = simp e
run_none handler (suc fuel) d e = simp (e, run_expired)

module _ (i : ℕ) (js : List ℕ) (d : Dispatcher) (e : d.run ≡ i ∷ js) where
  tail-WellFormed : WellFormed d → WellFormed (record d { run = js })
  tail-WellFormed w = record {
    single = w.single;
    in_range = w.in_range;
    once = λ k. omega (arith, w.once k, ap (sum_run (is k)) e);
  }

  Called-then_Ran :
      (handler : Handler) (d' d'' : Dispatcher)
      → Called handler (timed i) (record d { run = js }) d'
      → RanAll handler d' d''
      → RanAll handler d d''
  Called-then_Ran handler d' d'' c r = (
    r.0,
    r.1,
    omega arith,
    record {
      sleeping_kept = (r.3).sleeping_kept ∙ ((c.1).2).sleeping_kept;
      last_run_kept = (r.3).last_run_kept ∙ ((c.1).2).last_run_kept;
    },
    λ j s. (
      λ f. (r.4 j s).0 f ∙ (c.2 j s).0 f,
      omega (arith, (r.4 j s).1, (c.2 j s).1, ap (sum_run (is j)) e),
    ),
  )

pub run_expired-RanAll :
    (handler : Handler) (fuel : ℕ) (d : Dispatcher)
    → WellFormed d
    → length d.run ≤ fuel
    → Holds (RanAll handler d) (run_expired handler fuel d)
run_expired-RanAll handler zero d w h = elim (List-cases d.run) [
  | inl e ↦ rw (run_none handler zero d e) (ran_none handler d w e)
  | inr (i, js, e) ↦ absurd (omega (arith, ap length e))
]
run_expired-RanAll handler (suc fuel) d w h = elim (List-cases d.run) [
  | inl e ↦ rw (run_none handler (suc fuel) d e) (ran_none handler d w e)
  | inr (i, js, e) ↦ rw (run_first handler fuel i js d e) (
      Post-bind ⊥ _ _ (call handler (timed i) (record d { run = js })) _
        (call-Called handler (timed i) (record d { run = js }) (tail-WellFormed i js d e w))
        (λ d' c.
          Post-weaken ⊥ _ _ (run_expired handler fuel d')
            (λ d'' r. Called-then_Ran i js d e handler d' d'' c r)
            (run_expired-RanAll handler fuel d' (c.0) (omega (arith, (c.1).0, ap length e)))))
]
