-- ===== src/Events/Loop.antt =====
-- RunOnce and Run keep the invariant of the dispatcher, whatever the handlers do.
use nohands.Prelude.{
  ℕ, zero, suc, ◌≤◌, ◌≡◌, refl, ap, ◌∙◌, inl, inr, Bool, false, ◌&&◌, List, [], ◌∷◌, ◌++◌,
  Bool-cases, List-cases, length, ℤ, if◌then◌else◌, negsuc, is_empty, arith,
}
use nohands.Faults.{ok, ◌>>=◌}
use nohands.Faults.Post.{Holds, Post-bind, Post-if, Post-weaken}
use nohands.Events.Timers.{is_nil}
use nohands.Events.Dispatch.{Socket, ready, Dispatcher, Handler, call, run_timers, waited}
use nohands.Events.RunOnce.{
  Round, clock_back, clock_on, run_sockets, wait, run_once, run_loop, timeout, nothing_to_wait_for,
}
use nohands.Events.Invariant.{WellFormed, is}
use nohands.Events.Handlers.{Called, call-Called, Spares, fired}
use nohands.Events.Expire.{sum_run}
use nohands.Events.Fires.{run_timers-Ran}

-- Between two rounds.
pub record Idle (d : Dispatcher) : Type 0 where
  pub well : WellFormed d
  pub run_empty : d.run ≡ []
  pub iorun_empty : d.iorun ≡ []
  pub awake : d.sleeping ≡ false

-- While sockets are run.
abbrev pub Running : Dispatcher → Type 0
Running d = WellFormed d × (d.run ≡ []) × (d.sleeping ≡ false)

pub empty_of_length {ℓ} : {A : Type ℓ} (xs : List A) → length xs ≤ 0 → xs ≡ []
empty_of_length [] h = refl
empty_of_length (x ∷ xs) h = absurd (omega arith)

sockets_none :
    (handler : Handler) (selected : Bool → ℕ → Bool) (fuel : ℕ) (d : Dispatcher)
    → d.iorun ≡ []
    → run_sockets handler selected fuel d ≡ ok d
unfolding run_sockets
sockets_none handler selected zero d e = simp e
sockets_none handler selected (suc fuel) d e = simp (e, run_sockets)

-- A socket of the I/O run list on its way back to `m_sockets`.
abbrev moved : Socket → List Socket → Dispatcher → Dispatcher
moved s ss d = record d { iorun = ss; sockets = d.sockets ++ s ∷ [] }

sockets_first :
    (handler : Handler) (selected : Bool → ℕ → Bool) (fuel : ℕ) (s : Socket) (ss : List Socket)
    (d : Dispatcher)
    → d.iorun ≡ s ∷ ss
    → run_sockets handler selected (suc fuel) d ≡ (
        (if selected s.writable s.fh
          then call handler (ready s.id) (moved s ss d)
          else ok (moved s ss d))
        >>= run_sockets handler selected fuel)
unfolding run_sockets
sockets_first handler selected fuel s ss d e = rw (e, run_sockets) refl

-- Timers that no handler touches are not called meanwhile.
abbrev pub SameCalls : Handler → Dispatcher → Dispatcher → Type 0
SameCalls handler d d' = (j : ℕ) → Spares j handler → fired j d'.events ≡ fired j d.events

-- One socket.
abbrev Stepped : Handler → Dispatcher → Dispatcher → Type 0
Stepped handler d d' = Running d' × (length d'.iorun ≤ length d.iorun) × SameCalls handler d d'

moved-Running :
    (s : Socket) (ss : List Socket) (d : Dispatcher) → Running d → Running (moved s ss d)
moved-Running s ss d r =
    (record { single = (r.0).single; in_range = (r.0).in_range; once = (r.0).once }, r.1, r.2)

call-Stepped :
    (handler : Handler) (i : ℕ) (d : Dispatcher)
    → Running d
    → Holds (Stepped handler d) (call handler (ready i) d)
call-Stepped handler i d r =
    Post-weaken ⊥ (Called handler (ready i) d) _ (call handler (ready i) d)
      (λ d' c.
        let empty = empty_of_length d'.run (omega (arith, (c.1).0, ap length (r.1))) in
        (
          (c.0, empty, ((c.1).2).sleeping_kept ∙ r.2),
          (c.1).1,
          λ j s. omega (arith, (c.2 j s).1, ap (sum_run (is j)) empty, ap (sum_run (is j)) (r.1)),
        ))
      (call-Called handler (ready i) d (r.0))

Idle-of_Running : (d : Dispatcher) → Running d → d.iorun ≡ [] → Idle d
Idle-of_Running d r e = record { well = r.0; run_empty = r.1; iorun_empty = e; awake = r.2 }

abbrev pub SocketsRan : Handler → Dispatcher → Dispatcher → Type 0
SocketsRan handler d d' = Idle d' × SameCalls handler d d'

pub run_sockets-SocketsRan :
    (handler : Handler) (selected : Bool → ℕ → Bool) (fuel : ℕ) (d : Dispatcher)
    → Running d
    → length d.iorun ≤ fuel
    → Holds (SocketsRan handler d) (run_sockets handler selected fuel d)
run_sockets-SocketsRan handler selected zero d r h = elim (List-cases d.iorun) [
  | inl e ↦ rw (sockets_none handler selected zero d e) (Idle-of_Running d r e, λ j s. refl)
  | inr (s, ss, e) ↦ absurd (omega (arith, ap length e))
]
run_sockets-SocketsRan handler selected (suc fuel) d r h = elim (List-cases d.iorun) [
  | inl e ↦ rw (sockets_none handler selected (suc fuel) d e) (Idle-of_Running d r e, λ j s. refl)
  | inr (s, ss, e) ↦
      let r' = moved-Running s ss d r in
      rw (sockets_first handler selected fuel s ss d e) (
        Post-bind ⊥ (Stepped handler (moved s ss d)) (SocketsRan handler d) _ _
          (Post-if ⊥ (Stepped handler (moved s ss d)) (selected s.writable s.fh) _
            (ok (moved s ss d)) (λ b. call-Stepped handler s.id (moved s ss d) r')
            (λ b. (r', omega arith, λ j t. refl)))
          (λ d' k.
            Post-weaken ⊥ (SocketsRan handler d') _ (run_sockets handler selected fuel d')
              (λ d'' l. (l.0, λ j t. l.1 j t ∙ k.2 j t))
              (run_sockets-SocketsRan handler selected fuel d' (k.0)
                (omega (arith, k.1, ap length e)))))
]

-- The states before and after the clock is read the second time.
abbrev pub selecting : ℤ → Round → Dispatcher → Dispatcher
selecting max_sleep_ms r d =
    let d1 = record d { iorun = d.sockets; sockets = [] } in
    let d2 = clock_back r.before d1 in
    record d2 {
      events = waited (timeout max_sleep_ms d1.last_run r.before d1.timers) ∷ d2.events;
      sleeping = false;
    }

abbrev pub woken : ℤ → Round → Dispatcher → Dispatcher
woken max_sleep_ms r d = clock_on r.after (selecting max_sleep_ms r d)

clock_back-kept :
    (now : ℕ) (d : Dispatcher)
    → ((clock_back now d).timers ≡ d.timers) × ((clock_back now d).run ≡ d.run)
clock_back-kept now d = ground arith

clock_on-kept :
    (now : ℕ) (d : Dispatcher)
    → ((clock_on now d).timers ≡ d.timers)
      × ((clock_on now d).run ≡ d.run)
      × ((clock_on now d).sleeping ≡ d.sleeping)
clock_on-kept now d = ground arith

same_timers :
    (d d' : Dispatcher) → WellFormed d → d'.timers ≡ d.timers → d'.run ≡ d.run → WellFormed d'
same_timers d d' w h k = record {
  single = rw h w.single;
  in_range = rw h w.in_range;
  once = λ i. rw (h, k) (w.once i);
}

pub woken-Running :
    (max_sleep_ms : ℤ) (r : Round) (d : Dispatcher)
    → WellFormed d
    → d.run ≡ []
    → Running (woken max_sleep_ms r d)
woken-Running max_sleep_ms r d w h =
    let on = clock_on-kept r.after (selecting max_sleep_ms r d) in
    let back = clock_back-kept r.before (record d { iorun = d.sockets; sockets = [] }) in
    (
      same_timers d (woken max_sleep_ms r d) w (on.0 ∙ back.0) (on.1 ∙ back.1),
      on.1 ∙ back.1 ∙ h,
      on.2,
    )

pub woken-kept :
    (max_sleep_ms : ℤ) (r : Round) (d : Dispatcher)
    → ((woken max_sleep_ms r d).timers ≡ d.timers)
      × ((j : ℕ) → fired j (woken max_sleep_ms r d).events ≡ fired j d.events)
woken-kept max_sleep_ms r d = (ground arith, λ j. ground arith)

wait-Idle :
    (handler : Handler) (max_sleep_ms : ℤ) (r : Round) (d : Dispatcher)
    → WellFormed d
    → d.run ≡ []
    → Holds Idle (wait handler max_sleep_ms r d)
unfolding wait
wait-Idle handler max_sleep_ms r d w h =
    let k = woken-Running max_sleep_ms r d w h in
    Post-bind ⊥ _ Idle (run_timers handler _ (woken max_sleep_ms r d)) _
      (run_timers-Ran handler _ (woken max_sleep_ms r d) (k.0) (k.1))
      (λ d' a.
        Post-weaken ⊥ (SocketsRan handler d') Idle
          (run_sockets handler r.selected (length d'.iorun) d') (λ d'' l. l.0)
          (run_sockets-SocketsRan handler r.selected (length d'.iorun) d'
            (a.well, a.run_empty, a.clock_kept.sleeping_kept ∙ k.2) (omega arith)))

-- A round of the loop keeps the invariant.
pub run_once-Idle :
    (handler : Handler) (max_sleep_ms : ℤ) (r : Round) (d : Dispatcher)
    → Idle d
    → Holds Idle (run_once handler max_sleep_ms r d)
unfolding run_once
run_once-Idle handler max_sleep_ms r d i = simp i.awake (
    Post-bind ⊥ _ Idle (run_timers handler 0 d) _ (run_timers-Ran handler 0 d i.well i.run_empty)
      (λ d' a.
        Post-if ⊥ Idle (nothing_to_wait_for max_sleep_ms d') (ok d') _
          (λ e.
            Idle-of_Running d' (a.well, a.run_empty, a.clock_kept.sleeping_kept ∙ i.awake)
              (empty_of_length d'.iorun (omega (arith, a.iorun_le, ap length i.iorun_empty))))
          (λ e. wait-Idle handler max_sleep_ms r d' a.well a.run_empty)))

-- The loop of an idle dispatcher, for as many rounds as the system answers, whatever the handlers
-- set, cancel, enable or disable: no assertion fails, all inner loops come to their ends, and the
-- dispatcher is idle again, with one heap at most in which no timer is twice and all are due
-- within an unsigned int.
pub run_loop-Idle :
    (handler : Handler) (rs : List Round) (d : Dispatcher)
    → Idle d
    → Holds Idle (run_loop handler rs d)
unfolding run_loop
run_loop-Idle handler [] d i = i
run_loop-Idle handler (r ∷ rs) d i = elim (Bool-cases (is_nil d.timers && is_empty d.sockets)) [
  | inl e ↦ rw (e, run_loop) i
  | inr e ↦
      rw (e, run_loop)
        (Post-bind ⊥ _ _ (run_once handler (negsuc 0) r d) _
          (run_once-Idle handler (negsuc 0) r d i) (λ d' j. run_loop-Idle handler rs d' j))
]
