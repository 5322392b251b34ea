-- ===== src/Session/Invariant.antt =====
-- The invariant of an HfpSession whose timers are set up, and `__Disconnect` and `UpdateCallSetup` of
-- libhfp/hfp.cpp on it.
use nohands.Prelude.{
  ℕ, ◌≡◌, ◌≢◌, inl, inr, refl, Bool, true, false, Option, none, some, List, [], ◌∷◌, ℤ, pos, arith,
  Bool-cases,
}
use nohands.Gsm.{GsmClipResult}
use nohands.CallSetup.{
  missing, idle, Call, Env, Outcome, updated, violation, clear_clip, update_call_setup,
}
use nohands.Faults.Post.{Holds, IfOk, Post-bind, Post-weaken}
use nohands.CallSetup.Invariant.{Inv, Legal, Kept, Entry, Inv-Entry}
use nohands.CallSetup.Safe.{update_call_setup-Kept, update_call_setup-Entry, Legal-none}
use nohands.Session.{
  disconnected, rfc_connected, rfc_disconnected, AtCommand, HfpSession, env, is_connected,
  is_rfc_disconnected, tell, aborted,
}
use nohands.Session.Disconnect.{
  abort_commands, unplugged, hang_up, settle, notify_disconnected, disconnect, update_call,
}

-- The timers are there; a call is incomplete only on a connected session; a session that is connected
-- or shaking hands has its RFCOMM channel.
pub record SessionInv (s : HfpSession) : Type 0 where
  pub call_inv : Inv (env s) s.call
  pub command_timer : s.command_timer ≢ missing
  pub channel : is_connected s ≡ true → s.rfcomm_state ≡ rfc_connected
  pub incomplete : s.call.state_callsetup ≢ pos 0 → is_connected s ≡ true

-- All that is left after a disconnection.
pub record Gone (s : HfpSession) : Type 0 where
  pub inv : SessionInv s
  pub no_commands : s.commands ≡ []
  pub is_disconnected : s.conn_state ≡ disconnected
  pub no_channel : s.rfcomm_state ≡ rfc_disconnected
  pub quiet_call : s.call.state_callsetup ≡ pos 0

-- Deleting the commands changes the queue, the timer of the commands and the events.
record Aborted (s s' : HfpSession) : Type 0 where
  empty : s'.commands ≡ []
  timer_ne : s'.command_timer ≢ missing
  call_eq : s'.call ≡ s.call
  rfcomm_eq : s'.rfcomm_state ≡ s.rfcomm_state
  timeouts_eq : s'.timeouts ≡ s.timeouts
  memory_eq : s'.memory_left ≡ s.memory_left

abort_commands-Aborted :
    (cs : List AtCommand) (s : HfpSession)
    → s.command_timer ≢ missing
    → Holds (Aborted s) (abort_commands cs s)
unfolding abort_commands
abort_commands-Aborted [] s h = ground arith
abort_commands-Aborted (c ∷ cs) s h =
    ground
      (arith, abort_commands-Aborted cs (tell c.pend aborted (record s { command_timer = idle })))

abbrev IsQuiet : Outcome → Type 0
IsQuiet (updated c n) = c.state_callsetup ≡ pos 0
IsQuiet (violation c) = ⊥

update_none-IsQuiet : (e : Env) (c : Call) → IfOk IsQuiet (update_call_setup e (pos 0) 0 none 0 c)
unfolding update_call_setup clear_clip
update_none-IsQuiet e c = ground arith

-- Hanging up a session whose commands are deleted and whose members are reset.
notify_disconnected-Gone :
    (reason : Bool) (s : HfpSession)
    → s.conn_state ≡ disconnected
    → s.rfcomm_state ≡ rfc_disconnected
    → s.commands ≡ []
    → s.command_timer ≢ missing
    → Inv (env s) s.call
    → Holds Gone (notify_disconnected reason s)
unfolding notify_disconnected
notify_disconnected-Gone reason s c r q t v = ground (
  arith,
  update_call_setup-Kept (env s) (pos 0) 0 none 0 s.call Legal-none v,
  update_none-IsQuiet (env s) s.call,
)

-- The call state, but for `m_state_call`, outlives the connection until `UpdateCallSetup(0)`.
Inv-unplugged :
    (e e' : Env) (c c' : Call)
    → e'.connected ≡ false
    → c' ≡ c
    → Inv e c
    → Inv e' (record c' { state_call = false })
Inv-unplugged e e' c c' h q v = rw q (ground arith)

already-Gone :
    (s s' : HfpSession)
    → SessionInv s
    → Aborted s s'
    → is_rfc_disconnected s'.rfcomm_state ≡ true
    → s'.call.state_callsetup ≡ pos 0
already-Gone s s' v a e = ground arith

unplugged-Gone :
    (reason : Bool) (s s' : HfpSession)
    → SessionInv s
    → Aborted s s'
    → Holds Gone (hang_up reason (unplugged s'))
unfolding unplugged
unplugged-Gone reason s s' v a = elim (Bool-cases (is_rfc_disconnected s'.rfcomm_state)) [
  | inl e ↦ rw e (record {
    inv = record {
      call_inv = Inv-unplugged (env s) _ s.call s'.call refl a.call_eq v.call_inv;
      command_timer = a.timer_ne;
      channel = λ h. cc;
      incomplete = λ h. absurd (h (already-Gone s s' v a e));
    };
    no_commands = a.empty;
    is_disconnected = refl;
    no_channel = ground arith;
    quiet_call = already-Gone s s' v a e;
  })
  | inr e ↦ rw e (
      notify_disconnected-Gone reason _ refl refl a.empty a.timer_ne
        (Inv-unplugged (env s) _ s.call s'.call refl a.call_eq v.call_inv))
]

-- From any session that keeps the invariant, __Disconnect meets no failed assertion: it deletes
-- all commands and leaves a session that is disconnected and has no incomplete call.
pub disconnect-Gone :
    (reason : Bool) (s : HfpSession) → SessionInv s → Holds Gone (disconnect reason s)
unfolding disconnect
disconnect-Gone reason s v =
    Post-bind ⊥ (Aborted s) Gone (abort_commands s.commands s) (λ s'. hang_up reason (unplugged s'))
      (abort_commands-Aborted s.commands s v.command_timer) (λ s' a. unplugged-Gone reason s s' v a)

settle-SessionInv :
    (s : HfpSession) (o : Outcome)
    → s.command_timer ≢ missing
    → s.rfcomm_state ≡ rfc_connected
    → is_connected s ≡ true
    → Kept (env s) o
    → Holds SessionInv (settle (disconnect true) s o)
settle-SessionInv s (updated c none) t r h k = ground arith
settle-SessionInv s (updated c (some u)) t r h k = ground arith
settle-SessionInv s (violation c) t r h k =
    Post-weaken ⊥ Gone SessionInv (disconnect true (record s { call = c })) (λ s' g. g.inv)
      (disconnect-Gone true (record s { call = c }) (ground arith))

-- The same from a call state in which a timer has just been stopped or has gone off.
pub update_call-Entry :
    (val : ℤ) (ring : ℕ) (clip : Option GsmClipResult) (timeout_ms : ℕ) (s : HfpSession)
    → Legal val ring clip timeout_ms
    → s.command_timer ≢ missing
    → s.rfcomm_state ≡ rfc_connected
    → is_connected s ≡ true
    → Entry (env s) s.call
    → Holds SessionInv (update_call val ring clip timeout_ms s)
unfolding update_call
update_call-Entry val ring clip timeout_ms s l t r h v =
    Post-bind ⊥ (Kept (env s)) SessionInv
      (update_call_setup (env s) val ring clip timeout_ms s.call) (settle (disconnect true) s)
      (update_call_setup-Entry (env s) val ring clip timeout_ms s.call l v)
      (λ o k. settle-SessionInv s o t r h k)

-- UpdateCallSetup on a connected session that keeps the invariant, with the arguments that its
-- callers pass and whatever value the device has sent: no assertion fails, and the invariant is
-- kept, through a disconnection too.
pub update_call-SessionInv :
    (val : ℤ) (ring : ℕ) (clip : Option GsmClipResult) (timeout_ms : ℕ) (s : HfpSession)
    → Legal val ring clip timeout_ms
    → is_connected s ≡ true
    → SessionInv s
    → Holds SessionInv (update_call val ring clip timeout_ms s)
update_call-SessionInv val ring clip timeout_ms s l h v =
    update_call-Entry val ring clip timeout_ms s l v.command_timer (v.channel h) h
      (Inv-Entry v.call_inv)
