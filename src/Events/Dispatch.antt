-- ===== src/Events/Dispatch.antt =====
-- IndepEventDispatcher of libhfp/events-indep.cpp: Set and Cancel of a timer, SetEnabled of a socket,
-- RunTimers and RunOnce.
use nohands.Prelude.{
  ℕ, zero, suc, ◌+◌, ◌-◌, ◌%◌, Bool, false, not, ◌||◌, Option, none, some, List, [], ◌∷◌, ◌++◌, leb,
  ◌==◌, if◌then◌else◌, ℤ, pos, negsuc, is_empty, length,
}
use nohands.Faults.{out_of_fuel, Result, ok, fault, ◌>>=◌, ◌>>◌, assert}
use nohands.Events.Timers.{
  Timers, nil, u32_mod, contains, size, list_length, add_timer, remove_timer, expire, pair_timers,
}

-- IndepSocketNotifier, by a number of its own.
pub record Socket : Type 0 where
  pub id : ℕ
  pub fh : ℕ
  pub writable : Bool

-- What the dispatcher does: the notifiers that it calls, and the timeout of `select`, in milliseconds.
pub data Event : Type 0 where
  timed : ℕ → Event
  ready : ℕ → Event
  waited : Option ℕ → Event

-- `run` and `iorun` are the lists that RunTimers and RunOnce have on their stack; `m_last_run` is in
-- microseconds. The newest event comes first.
pub record Dispatcher : Type 0 where
  pub timers : Timers
  pub run : List ℕ
  pub sockets : List Socket
  pub iorun : List Socket
  pub sleeping : Bool
  pub last_run : ℕ
  pub events : List Event

abbrev pub member : ℕ → List ℕ → Bool
member i [] = false
member i (j ∷ js) = j == i || member i js

abbrev pub unlink : ℕ → List ℕ → List ℕ
unlink i [] = []
unlink i (j ∷ js) = if j == i then js else j ∷ unlink i js

abbrev pub has_socket : ℕ → List Socket → Bool
has_socket i [] = false
has_socket i (s ∷ ss) = s.id == i || has_socket i ss

abbrev pub unlink_socket : ℕ → List Socket → List Socket
unlink_socket i [] = []
unlink_socket i (s ∷ ss) = if s.id == i then ss else s ∷ unlink_socket i ss

-- `!m_links.Empty()` of a timer: it is in the heap or on the run list.
abbrev pub linked : ℕ → Dispatcher → Bool
linked i d = contains i d.timers || member i d.run

-- An int as an unsigned int.
abbrev pub to_u32 : ℤ → ℕ
to_u32 (pos n) = n % u32_mod
to_u32 (negsuc n) = u32_mod - 1 - n % u32_mod

-- RemoveTimer. A timer on the run list has no children.
unfoldable pub remove : ℕ → Dispatcher → Result Dispatcher
remove i d = do
  assert (linked i d)
  ts ← remove_timer i d.timers
  ok (record d { timers = ts; run = unlink i d.run })

-- AddTimer.
unfoldable pub add : ℕ → ℕ → Dispatcher → Result Dispatcher
add i ms d = do assert (not (linked i d)); ok (record d { timers = add_timer i ms d.timers })

-- IndepTimerNotifier::Cancel, which its destructor calls too.
unfoldable pub cancel : ℕ → Dispatcher → Result Dispatcher
cancel i d = if linked i d then remove i d else ok d

-- IndepTimerNotifier::Set.
unfoldable pub set : ℕ → ℤ → Dispatcher → Result Dispatcher
set i msec d = do d' ← cancel i d; add i (to_u32 msec) d'

abbrev pub socket_linked : ℕ → Dispatcher → Bool
socket_linked i d = has_socket i d.sockets || has_socket i d.iorun

-- AddSocket, which NewSocket calls.
unfoldable pub add_socket : Socket → Dispatcher → Result Dispatcher
add_socket s d = do
  assert (not (socket_linked s.id d))
  ok (record d { sockets = d.sockets ++ s ∷ [] })

-- RemoveSocket, from `m_sockets` or the I/O run list.
unfoldable pub remove_socket : ℕ → Dispatcher → Result Dispatcher
remove_socket i d = do
  assert (socket_linked i d)
  ok (record d {
    sockets = unlink_socket i d.sockets;
    iorun = if has_socket i d.sockets then d.iorun else unlink_socket i d.iorun;
  })

-- IndepSocketNotifier::SetEnabled; the destructor is a call with `false`.
unfoldable pub set_enabled : Socket → Bool → Dispatcher → Result Dispatcher
set_enabled s enable d =
    if socket_linked s.id d
    then (if enable then ok d else remove_socket s.id d)
    else (if enable then add_socket s d else ok d)

-- What a handler does to the dispatcher.
pub data Action : Type 0 where
  set_timer : ℕ → ℤ → Action
  cancel_timer : ℕ → Action
  enable_socket : Socket → Bool → Action

unfoldable pub act : Action → Dispatcher → Result Dispatcher
act (set_timer i msec) d = set i msec d
act (cancel_timer i) d = cancel i d
act (enable_socket s enable) d = set_enabled s enable d

unfoldable pub act_all : List Action → Dispatcher → Result Dispatcher
act_all [] d = ok d
act_all (a ∷ as') d = do d' ← act a d; act_all as' d'

-- The handlers of all notifiers: what is done on the newest event, after those before it.
abbrev pub Handler : Type 0
Handler = List Event → List Action

unfoldable pub call : Handler → Event → Dispatcher → Result Dispatcher
unfolding act_all
call handler e d = act_all (handler (e ∷ d.events)) (record d { events = e ∷ d.events })

-- The last loop of RunTimers; fuel is the length of the run list, which only shrinks.
unfoldable pub run_expired : Handler → ℕ → Dispatcher → Result Dispatcher
run_expired handler zero d = if is_empty d.run then ok d else fault out_of_fuel
run_expired handler (suc fuel) d = elim d.run [
  | [] ↦ ok d
  | i ∷ is ↦ do d' ← call handler (timed i) (record d { run = is }); run_expired handler fuel d'
]

-- `if (m_timers.next != m_timers.prev)`: the timers that are left become one heap again.
unfoldable pub merge_roots : Timers → Result Timers
merge_roots kept =
    if leb 2 (list_length kept)
    then (do ts ← pair_timers kept nil 0; assert (list_length ts == 1); ok ts)
    else ok kept

abbrev pub expired : Option (Timers × List ℕ) → Result (Timers × List ℕ)
expired none = fault out_of_fuel
expired (some r) = ok r

-- RunTimers.
unfoldable pub run_timers : Handler → ℕ → Dispatcher → Result Dispatcher
run_timers handler ms_elapsed d = do
  assert (leb (list_length d.timers) 1)
  (kept, run) ← expired (expire (size d.timers + 1) ms_elapsed nil d.timers [])
  ts ← merge_roots kept
  run_expired handler (length run) (record d { timers = ts; run = run })
