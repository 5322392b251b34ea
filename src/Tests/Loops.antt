-- ===== src/Tests/Loops.antt =====
-- Examples for the event loop of libhfp/events-indep.cpp.
use nohands.Prelude.{◌+◌, ◌≡◌, refl, true, false, some, [], ◌∷◌, pos, negsuc, arith}
use nohands.Faults.{ok, ◌>>=◌}
use nohands.Faults.Post.{Holds}
use nohands.Events.Timers.{
  Timers, nil, cons, add_timer, remove_timer, expire, pair_timers, orphans, collect_from, pair_all,
  collect_all, pair,
}
use nohands.Events.Weights.{total}
use nohands.Events.Dispatch.{
  timed, ready, waited, Dispatcher, set_timer, cancel_timer, Handler, set,
}
use nohands.Events.RunOnce.{Round, timeout, elapsed, run_once, run_loop}
use nohands.Events.Invariant.{WellFormed, Armed, set-Armed}
use nohands.Events.Handlers.{Spares, fired}
use nohands.Events.Loop.{Idle, run_loop-Idle}
use nohands.Events.Sleep.{NotLate, timeout-NotLate}
use nohands.Events.Calls.{Calls, run_once-Calls}
use nohands.Events.Early.{early}

-- Timer 1 is due in 10 ms, timer 2 in 15 and timer 3 in 12.
abbrev heap : Timers
heap = cons 1 10 (cons 2 5 nil (cons 3 2 nil nil)) nil

add_run : add_timer 4 3 heap ≡ cons 4 3 (cons 1 7 (cons 2 5 nil (cons 3 2 nil nil)) nil) nil
unfolding add_timer
add_run = refl

-- The children of a timer that is taken off are paired.
remove_run : remove_timer 1 heap ≡ ok (cons 3 12 (cons 2 3 nil nil) nil)
unfolding remove_timer orphans pair_timers collect_from pair_all collect_all pair
remove_run = refl

expire_run : expire 4 13 nil heap [] ≡ some (cons 2 2 nil nil, 1 ∷ 3 ∷ [])
unfolding expire
expire_run = refl

abbrev quiet : Dispatcher
quiet = record {
  timers = heap;
  run = [];
  sockets = record { id = 9; fh = 5; writable = false } ∷ [];
  iorun = [];
  sleeping = false;
  last_run = 1_000_000;
  events = [];
}

quiet-WellFormed : WellFormed quiet
unfolding total
quiet-WellFormed = record { single = omega arith; in_range = refl; once = λ i. ground arith }

quiet-Idle : Idle quiet
quiet-Idle = record { well = quiet-WellFormed; run_empty = refl; iorun_empty = refl; awake = refl }

set-Armed_example : Holds (Armed 2 7 quiet) (set 2 (pos 7) quiet)
set-Armed_example = set-Armed 2 (pos 7) quiet quiet-WellFormed

-- Timer 1 sets itself again, and takes timer 2 off.
abbrev restart : Handler
restart [] = []
restart (timed i ∷ es) = set_timer 1 (pos 10) ∷ cancel_timer 2 ∷ []
restart (ready i ∷ es) = set_timer 1 (pos 20) ∷ []
restart (waited t ∷ es) = []

-- 12 ms go by, and the socket has something to read.
abbrev round : Round
round = record { before = 1_001_000; after = 1_012_500; selected = λ w fh. true }

run_loop-Idle_example : Holds Idle (run_loop restart (round ∷ round ∷ []) quiet)
run_loop-Idle_example = run_loop-Idle restart (round ∷ round ∷ []) quiet quiet-Idle

timeout-NotLate_example :
    NotLate (elapsed 1_000_000 1_001_000) heap (timeout (negsuc 0) 1_000_000 1_001_000 heap)
timeout-NotLate_example = timeout-NotLate (negsuc 0) 1_000_000 1_001_000 heap (omega arith)

timeout_run : timeout (negsuc 0) 1_000_000 1_001_000 heap ≡ some 9
unfolding timeout
timeout_run = refl

restart-Spares : Spares 3 restart
restart-Spares [] = tt
restart-Spares (timed i ∷ es) = (omega arith, (omega arith, tt))
restart-Spares (ready i ∷ es) = (omega arith, tt)
restart-Spares (waited t ∷ es) = tt

run_once-Calls_example :
    Holds (Calls 3 (elapsed 1_000_000 1_012_500) quiet) (run_once restart (negsuc 0) round quiet)
run_once-Calls_example =
    run_once-Calls restart (negsuc 0) round quiet 3 quiet-Idle (omega arith) restart-Spares

-- 30 ms after the last reading of the clock, timer 3 is set for 20 ms, and called at once.
early_example :
    Holds
      (λ d. fired 3 d.events ≡ fired 3 quiet.events + 1)
      (set 3 (pos 20) quiet
        >>= run_once restart
            (negsuc 0)
            (record { before = 1_030_000; after = 1_030_000; selected = λ w fh. false }))
early_example =
    early restart (negsuc 0) (λ w fh. false) quiet 3 20 1_030_000 quiet-Idle restart-Spares
      (omega arith) (omega arith) (omega arith)
