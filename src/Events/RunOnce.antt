-- ===== src/Events/RunOnce.antt =====
-- RunOnce of libhfp/events-indep.cpp. The clock and the answer of `select` are arguments.
use nohands.Prelude.{
  ℕ, zero, suc, ◌-◌, ◌/◌, ◌%◌, Bool, true, false, not, ◌&&◌, Option, none, some, List, [], ◌∷◌,
  ◌++◌, ltb, if◌then◌else◌, ℤ, pos, negsuc, is_empty, length,
}
use nohands.Faults.{out_of_fuel, Result, ok, fault, ◌>>=◌, ◌>>◌, assert}
use nohands.Events.Timers.{Timers, nil, cons, u32_mod, is_nil}
use nohands.Events.Dispatch.{ready, waited, Dispatcher, Handler, call, run_timers}

-- What the system answers in one round: `gettimeofday` before and after `select`, in microseconds, and
-- the descriptors that are ready, for writing or reading; none if `select` fails.
pub record Round : Type 0 where
  pub before : ℕ
  pub after : ℕ
  pub selected : Bool → ℕ → Bool

-- `tv_sec * 1000 + tv_usec / 1000` of a difference, as an unsigned int.
abbrev pub millis : ℕ → ℕ → ℕ
millis later earlier = (later - earlier) / 1000 % u32_mod

-- The milliseconds since `m_last_run`, and 0 if time went backwards.
abbrev pub elapsed : ℕ → ℕ → ℕ
elapsed last_run now = if ltb now last_run then 0 else millis now last_run

abbrev pub at_most : ℤ → ℕ → ℕ
at_most (pos m) ms = if ltb m ms then m else ms
at_most (negsuc m) ms = ms

abbrev pub no_timer_timeout : ℤ → Option ℕ
no_timer_timeout (pos m) = some m
no_timer_timeout (negsuc m) = none

-- The timeout of `select`, if any.
unfoldable pub timeout : ℤ → ℕ → ℕ → Timers → Option ℕ
timeout max_sleep_ms last_run now nil = no_timer_timeout max_sleep_ms
timeout max_sleep_ms last_run now (cons i delta cs ts) =
    let gone = elapsed last_run now in
    some (at_most max_sleep_ms (if ltb gone delta then delta - gone else 0))

-- The first reading of the clock: if time went backwards, it becomes `m_last_run`.
abbrev pub clock_back : ℕ → Dispatcher → Dispatcher
clock_back now d =
    if not (is_nil d.timers) && ltb now d.last_run then record d { last_run = now } else d

-- The second one: it becomes `m_last_run` if a millisecond has gone by.
abbrev pub clock_on : ℕ → Dispatcher → Dispatcher
clock_on now d = if ltb 0 (elapsed d.last_run now) then record d { last_run = now } else d

-- The last loop, over the I/O run list, which only shrinks: its length is the fuel.
unfoldable pub run_sockets : Handler → (Bool → ℕ → Bool) → ℕ → Dispatcher → Result Dispatcher
run_sockets handler selected zero d = if is_empty d.iorun then ok d else fault out_of_fuel
run_sockets handler selected (suc fuel) d = elim d.iorun [
  | [] ↦ ok d
  | s ∷ ss ↦ do
    let d' = record d { iorun = ss; sockets = d.sockets ++ s ∷ [] }
    d'' ← if selected s.writable s.fh then call handler (ready s.id) d' else ok d'
    run_sockets handler selected fuel d''
]

-- `m_timers.Empty() && m_sockets.Empty() && (max_sleep_ms < 0)`.
abbrev pub nothing_to_wait_for : ℤ → Dispatcher → Bool
nothing_to_wait_for (pos m) d = false
nothing_to_wait_for (negsuc m) d = is_nil d.timers && is_empty d.sockets

-- From the first reading of the clock to the end.
unfoldable pub wait : Handler → ℤ → Round → Dispatcher → Result Dispatcher
wait handler max_sleep_ms r d = do
  let d1 = record d { iorun = d.sockets; sockets = [] }
  let d2 = clock_back r.before d1
  let top = timeout max_sleep_ms d1.last_run r.before d1.timers
  let d3 = record d2 { events = waited top ∷ d2.events; sleeping = false }
  let ms_elapsed = elapsed d3.last_run r.after
  d4 ← run_timers handler ms_elapsed (clock_on r.after d3)
  run_sockets handler r.selected (length d4.iorun) d4

-- RunOnce. `m_sleeping` is true only while `select` runs.
unfoldable pub run_once : Handler → ℤ → Round → Dispatcher → Result Dispatcher
unfolding wait
run_once handler max_sleep_ms r d = do
  assert (not d.sleeping)
  d' ← run_timers handler 0 d
  if nothing_to_wait_for max_sleep_ms d' then ok d' else wait handler max_sleep_ms r d'

-- Run, for as many rounds as the system answers; `RunOnce(-1)`.
unfoldable pub run_loop : Handler → List Round → Dispatcher → Result Dispatcher
run_loop handler [] d = ok d
run_loop handler (r ∷ rs) d = elim (is_nil d.timers && is_empty d.sockets) [
  | true ↦ ok d
  | false ↦ do d' ← run_once handler (negsuc 0) r d; run_loop handler rs d'
]
