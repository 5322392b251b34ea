-- ===== src/Events/Handlers.antt =====
-- What handlers do to the dispatcher: the invariant, and the timers that they leave alone.
use nohands.Prelude.{
  ℕ, ◌+◌, ◌≤◌, ◌≡◌, ◌≢◌, refl, ap, ◌∙◌, inl, inr, Bool, List, [], ◌∷◌, ◌==◌, if◌then◌else◌,
  Bool-cases, All, length, arith,
}
use nohands.Faults.Post.{Holds, Post-bind, Post-weaken}
use nohands.Events.Timers.{Timers, nil, cons}
use nohands.Events.Weights.{Weight, total}
use nohands.Events.Heap.{without}
use nohands.Events.Expire.{sum_run}
use nohands.Events.Dispatch.{
  Socket, Event, timed, ready, waited, Dispatcher, unlink, unlink_socket, to_u32, set, cancel,
  set_enabled, add_socket, remove_socket, Action, set_timer, cancel_timer, enable_socket, act,
  act_all, Handler, call, socket_linked,
}
use nohands.Events.Invariant.{
  is, WellFormed, ClockKept, ClockKept-refl, ClockKept-trans, Unlinked, Armed, cancel-Unlinked,
  set-Armed,
}

-- A weight of one timer only.
abbrev pub only : ℕ → Weight → Weight
only j f i t = if i == j then f i t else 0

-- How often timer `j` was called.
abbrev pub fired : ℕ → List Event → ℕ
fired j [] = 0
fired j (timed i ∷ es) = is j i + fired j es
fired j (ready i ∷ es) = fired j es
fired j (waited t ∷ es) = fired j es

-- The action neither sets nor cancels timer `j`.
abbrev pub Leaves : ℕ → Action → Type 0
Leaves j (set_timer i msec) = i ≢ j
Leaves j (cancel_timer i) = i ≢ j
Leaves j (enable_socket s enable) = Unit

abbrev pub Spares : ℕ → Handler → Type 0
Spares j handler = (es : List Event) → All (Leaves j) (handler es)

-- Timer `j` in two states: as in the heap, and as often called or about to be.
abbrev pub SameTimer : ℕ → Dispatcher → Dispatcher → Type 0
SameTimer j d d' =
    ((f : Weight) → total (only j f) 0 d'.timers ≡ total (only j f) 0 d.timers)
    × (sum_run (is j) d'.run + fired j d'.events ≡ sum_run (is j) d.run + fired j d.events)

without-only :
    (f : Weight) (i j b : ℕ) (ts : Timers)
    → i ≢ j
    → total (without i (only j f)) b ts ≡ total (only j f) b ts
unfolding total
without-only f i j b nil h = refl
without-only f i j b (cons k d cs ts) h =
    ground (arith, without-only f i j (b + d) cs, without-only f i j b ts)

sum_run-unlink_other :
    (i j : ℕ) (ks : List ℕ) → i ≢ j → sum_run (is j) (unlink i ks) ≡ sum_run (is j) ks
sum_run-unlink_other i j [] h = refl
sum_run-unlink_other i j (k ∷ ks) h = ground (arith, sum_run-unlink_other i j ks)

module _ (i j : ℕ) (d d' : Dispatcher) (h : i ≢ j) where
  Unlinked-SameTimer : Unlinked i d d' → SameTimer j d d'
  Unlinked-SameTimer u = (
    λ f. u.timers_left (only j f) ∙ without-only f i j 0 d.timers h,
    rw (u.run_left, u.events_kept)
        (ap (λ n. n + fired j d.events) (sum_run-unlink_other i j d.run h)),
  )

  Armed-SameTimer : (ms : ℕ) → Armed i ms d d' → SameTimer j d d'
  Armed-SameTimer ms u = (
    λ f. ground (arith, u.timers_due (only j f), without-only f i j 0 d.timers h),
    rw (u.run_left, u.events_kept)
        (ap (λ n. n + fired j d.events) (sum_run-unlink_other i j d.run h)),
  )

length-unlink : (i : ℕ) (ks : List ℕ) → length (unlink i ks) ≤ length ks
length-unlink i [] = omega arith
length-unlink i (k ∷ ks) = ground (arith, length-unlink i ks)

length-unlink_socket : (i : ℕ) (ss : List Socket) → length (unlink_socket i ss) ≤ length ss
length-unlink_socket i [] = omega arith
length-unlink_socket i (s ∷ ss) = ground (arith, length-unlink_socket i ss)

-- The run list and the I/O run list get no longer, and the clock is left alone.
abbrev pub NoLonger : Dispatcher → Dispatcher → Type 0
NoLonger d d' = (length d'.run ≤ length d.run) × (length d'.iorun ≤ length d.iorun) × ClockKept d d'

unlinked-NoLonger :
    (i : ℕ) (d d' : Dispatcher)
    → d'.run ≡ unlink i d.run
    → d'.iorun ≡ d.iorun
    → ClockKept d d'
    → NoLonger d d'
unlinked-NoLonger i d d' h k l = (rw h (length-unlink i d.run), rw k (omega arith), l)

-- Operations on sockets leave the timers and the run list alone.
abbrev pub TimersKept : Dispatcher → Dispatcher → Type 0
TimersKept d d' =
    (d'.timers ≡ d.timers)
    × (d'.run ≡ d.run)
    × (d'.events ≡ d.events)
    × (length d'.iorun ≤ length d.iorun)
    × ClockKept d d'

set_enabled-TimersKept :
    (s : Socket) (enable : Bool) (d : Dispatcher) → Holds (TimersKept d) (set_enabled s enable d)
unfolding set_enabled add_socket remove_socket
set_enabled-TimersKept s enable d = elim (Bool-cases (socket_linked s.id d)) [
  | inl e ↦ elim (Bool-cases enable) [
    | inl f ↦
        rw (e, f)
          (refl, refl, refl, omega arith, record { sleeping_kept = refl; last_run_kept = refl })
    | inr f ↦
        rw (e, f)
          (
            refl,
            refl,
            refl,
            ground (arith, length-unlink_socket s.id d.iorun),
            record { sleeping_kept = refl; last_run_kept = refl },
          )
  ]
  | inr e ↦ elim (Bool-cases enable) [
    | inl f ↦
        rw (e, f)
          (refl, refl, refl, omega arith, record { sleeping_kept = refl; last_run_kept = refl })
    | inr f ↦
        rw (e, f)
          (refl, refl, refl, omega arith, record { sleeping_kept = refl; last_run_kept = refl })
  ]
]

WellFormed-TimersKept : (d d' : Dispatcher) → WellFormed d → TimersKept d d' → WellFormed d'
WellFormed-TimersKept d d' w k = record {
  single = rw (k.0) (w.single);
  in_range = rw (k.0) (w.in_range);
  once = λ i. rw (k.0, k.1) (w.once i);
}

SameTimer-TimersKept : (j : ℕ) (d d' : Dispatcher) → TimersKept d d' → SameTimer j d d'
SameTimer-TimersKept j d d' k = (λ f. ap (total (only j f) 0) (k.0), rw (k.1, k.2) refl)

-- An action keeps the invariant, and each timer that it leaves alone.
abbrev Acted : Action → Dispatcher → Dispatcher → Type 0
Acted a d d' = WellFormed d' × NoLonger d d' × ((j : ℕ) → Leaves j a → SameTimer j d d')

act-Acted : (a : Action) (d : Dispatcher) → WellFormed d → Holds (Acted a d) (act a d)
unfolding act
act-Acted (set_timer i msec) d w =
    Post-weaken ⊥ _ _ (set i msec d)
      (λ d' u. (
        u.well,
        unlinked-NoLonger i d d' u.run_left u.iorun_kept u.clock_kept,
        λ j h. Armed-SameTimer i j d d' h (to_u32 msec) u,
      ))
      (set-Armed i msec d w)
act-Acted (cancel_timer i) d w =
    Post-weaken ⊥ _ _ (cancel i d)
      (λ d' u. (
        u.well,
        unlinked-NoLonger i d d' u.run_left u.iorun_kept u.clock_kept,
        λ j h. Unlinked-SameTimer i j d d' h u,
      ))
      (cancel-Unlinked i d w)
act-Acted (enable_socket s enable) d w =
    Post-weaken ⊥ _ _ (set_enabled s enable d)
      (λ d' k. (
        WellFormed-TimersKept d d' w k,
        (rw (k.1) (omega arith), k.3, k.4),
        λ j h. SameTimer-TimersKept j d d' k,
      ))
      (set_enabled-TimersKept s enable d)

SameTimer-trans :
    (j : ℕ) (d d' d'' : Dispatcher) → SameTimer j d d' → SameTimer j d' d'' → SameTimer j d d''
SameTimer-trans j d d' d'' h k = (λ f. k.0 f ∙ h.0 f, k.1 ∙ h.1)

abbrev ActedAll : List Action → Dispatcher → Dispatcher → Type 0
ActedAll as' d d' =
    WellFormed d' × NoLonger d d' × ((j : ℕ) → All (Leaves j) as' → SameTimer j d d')

act_all-ActedAll :
    (as' : List Action) (d : Dispatcher) → WellFormed d → Holds (ActedAll as' d) (act_all as' d)
unfolding act_all
act_all-ActedAll [] d w =
    (w, (omega arith, omega arith, ClockKept-refl d), λ j h. (λ f. refl, refl))
act_all-ActedAll (a ∷ as') d w = Post-bind ⊥ (Acted a d) _ (act a d) _ (act-Acted a d w) (λ d' h.
    Post-weaken ⊥ _ _ (act_all as' d')
      (λ d'' k. (
        k.0,
        (omega arith, omega arith, ClockKept-trans d d' d'' (h.1).2 (k.1).2),
        λ j l. SameTimer-trans j d d' d'' (h.2 j (l.0)) (k.2 j (l.1)),
      ))
      (act_all-ActedAll as' d' (h.0)))

-- A handler is called with the run list `is`, its timer taken off.
abbrev pub Called : Handler → Event → Dispatcher → Dispatcher → Type 0
Called handler e d d' =
    WellFormed d'
    × NoLonger d d'
    × ((j : ℕ) → Spares j handler → SameTimer j (record d { events = e ∷ d.events }) d')

NoLonger-since :
    (d d' : Dispatcher) (es : List Event) → NoLonger (record d { events = es }) d' → NoLonger d d'
NoLonger-since d d' es h =
    (h.0, h.1, record { sleeping_kept = (h.2).sleeping_kept; last_run_kept = (h.2).last_run_kept })

pub call-Called :
    (handler : Handler) (e : Event) (d : Dispatcher)
    → WellFormed d
    → Holds (Called handler e d) (call handler e d)
unfolding call
call-Called handler e d w =
    Post-weaken ⊥ _ _ (act_all (handler (e ∷ d.events)) (record d { events = e ∷ d.events }))
      (λ d' h. (h.0, NoLonger-since d d' (e ∷ d.events) (h.1), λ j s. h.2 j (s (e ∷ d.events))))
      (act_all-ActedAll (handler (e ∷ d.events)) (record d { events = e ∷ d.events })
        (record { single = w.single; in_range = w.in_range; once = w.once }))
