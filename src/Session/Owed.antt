-- ===== src/Session/Owed.antt =====
-- Each HfpPendingCommand of libhfp/hfp.cpp is owed one callback from the queue until it is completed:
-- how the queue operations and `__Disconnect` treat it.
use nohands.Prelude.{
  false, ℕ, ◌+◌, ◌≡◌, Bool, true, Option, none, some, List, [], ◌∷◌, ◌==◌, if◌then◌else◌, ℤ, pos,
  arith,
}
use nohands.Text.{Bytes}
use nohands.Gsm.{GsmClipResult}
use nohands.Faults.{Result, ok, assert}
use nohands.CallSetup.{cancel, Call, Outcome, updated, violation, update_call_setup}
use nohands.Faults.Post.{IfOk, Post-bind, Post-map, Post-if, Post-trivial}
use nohands.Session.{
  rfc_disconnected, AtCommand, Reply, Event, completed, HfpSession, env, is_rfc_disconnected, tell,
  aborted, emit, notify_connection,
}
use nohands.Session.Disconnect.{
  abort_commands, settle, notify_disconnected, disconnect, update_call, unplugged, hang_up,
}
use nohands.Session.Commands.{send_command}

abbrev pub pend_one : ℕ → Option ℕ → ℕ
pend_one id none = 0
pend_one id (some j) = if j == id then 1 else 0

-- The commands in the queue that pending command `id` waits for, and the callbacks that it has had.
abbrev pub pend_count : ℕ → List AtCommand → ℕ
pend_count id [] = 0
pend_count id (c ∷ cs) = pend_one id c.pend + pend_count id cs

abbrev done_one : ℕ → Event → ℕ
done_one id (completed j reply) = if j == id then 1 else 0
done_one id _ = 0

abbrev pub done_count : ℕ → List Event → ℕ
done_count id [] = 0
done_count id (e ∷ es) = done_one id e + done_count id es

abbrev pub owed : ℕ → HfpSession → ℕ
owed id s = pend_count id s.commands + done_count id s.events

abbrev pub Owes : ℕ → ℕ → HfpSession → Type 0
Owes id n s = owed id s ≡ n

pub tell-done :
    (id : ℕ) (p : Option ℕ) (reply : Reply) (s : HfpSession)
    → done_count id (tell p reply s).events ≡ pend_one id p + done_count id s.events
tell-done id none reply s = omega arith
tell-done id (some j) reply s = omega arith

abort_commands-Owes :
    (id n : ℕ) (cs : List AtCommand) (s : HfpSession)
    → pend_count id cs + done_count id s.events ≡ n
    → IfOk (Owes id n) (abort_commands cs s)
unfolding abort_commands
abort_commands-Owes id n [] s e = e
abort_commands-Owes id n (c ∷ cs) s e =
    Post-bind (Unit {0}) (λ _. Unit {0}) (Owes id n) (cancel s.command_timer) _
      (Post-trivial (cancel s.command_timer))
      (λ t _.
        abort_commands-Owes id n cs (tell c.pend aborted (record s { command_timer = t }))
          (omega (arith, tell-done id c.pend aborted (record s { command_timer = t }))))

-- What `UpdateCallSetup` adds to the events completes no command.
settle-Owes :
    (id n : ℕ) (give_up : HfpSession → Result HfpSession) (s : HfpSession) (o : Outcome)
    → owed id s ≡ n
    → ((c : Call) → IfOk (Owes id n) (give_up (record s { call = c })))
    → IfOk (Owes id n) (settle give_up s o)
settle-Owes id n give_up s (updated c none) e h = e
settle-Owes id n give_up s (updated c (some u)) e h = omega arith
settle-Owes id n give_up s (violation c) e h = h c

notify_disconnected-Owes :
    (id n : ℕ) (reason : Bool) (s : HfpSession)
    → owed id s ≡ n
    → IfOk (Owes id n) (notify_disconnected reason s)
unfolding notify_disconnected
notify_disconnected-Owes id n reason s e =
    Post-bind (Unit {0}) (λ _. Unit {0}) (Owes id n) (assert _) _ (Post-trivial (assert _))
      (λ _ _.
        Post-bind (Unit {0}) (λ _. Unit {0}) (Owes id n)
          (update_call_setup (env s) (pos 0) 0 none 0 s.call) _
          (Post-trivial (update_call_setup (env s) (pos 0) 0 none 0 s.call))
          (λ o _.
            Post-map (Unit {0}) (Owes id n) (Owes id n) (settle ok s o)
              (λ s'. if reason then emit (notify_connection true) s' else s')
              (settle-Owes id n ok s o e (λ c. e)) (λ s' e'. ground arith)))

hang_up-Owes :
    (id n : ℕ) (reason : Bool) (s : HfpSession)
    → owed id s ≡ n
    → IfOk (Owes id n) (hang_up reason s)
hang_up-Owes id n reason s e =
    Post-if (Unit {0}) (Owes id n) (is_rfc_disconnected s.rfcomm_state) _ _ (λ _. e)
      (λ _.
        notify_disconnected-Owes id n reason
          (record s { rfcomm_state = rfc_disconnected; rfcomm_not = false }) e)

-- `__Disconnect` calls back every pending command of the queue, and no other.
pub disconnect-Owes :
    (id n : ℕ) (reason : Bool) (s : HfpSession)
    → owed id s ≡ n
    → IfOk (Owes id n) (disconnect reason s)
unfolding disconnect
disconnect-Owes id n reason s e =
    Post-bind (Unit {0}) (Owes id n) (Owes id n) (abort_commands s.commands s)
      (λ s'. hang_up reason (unplugged s')) (abort_commands-Owes id n s.commands s e)
      (λ s' e'. hang_up-Owes id n reason (unplugged s') e')

pub update_call-Owes :
    (id n : ℕ) (val : ℤ) (ring : ℕ) (clip : Option GsmClipResult) (timeout_ms : ℕ) (s : HfpSession)
    → owed id s ≡ n
    → IfOk (Owes id n) (update_call val ring clip timeout_ms s)
unfolding update_call
update_call-Owes id n val ring clip timeout_ms s e =
    Post-bind (Unit {0}) (λ _. Unit {0}) (Owes id n)
      (update_call_setup (env s) val ring clip timeout_ms s.call) (settle (disconnect true) s)
      (Post-trivial (update_call_setup (env s) val ring clip timeout_ms s.call))
      (λ o _.
        settle-Owes id n (disconnect true) s o e
          (λ c. disconnect-Owes id n true (record s { call = c }) e))

-- The operations that return a flag beside the state.
abbrev pub OwesWith : ℕ → ℕ → HfpSession × Bool → Type 0
OwesWith id n r = owed id r.0 ≡ n

pub send_command-Owes :
    (id n : ℕ) (cmd : Bytes) (s : HfpSession)
    → owed id s ≡ n
    → IfOk (OwesWith id n) (send_command cmd s)
unfolding send_command
send_command-Owes id n cmd s e = ground (arith, disconnect-Owes id n true s e)
