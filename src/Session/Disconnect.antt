-- ===== src/Session/Disconnect.antt =====
-- `__Disconnect` of libhfp/hfp.cpp with the `NotifyConnectionState` that it leads to, and
-- `UpdateCallSetup` on the session.
use nohands.Prelude.{ℕ, Bool, true, false, Option, none, some, List, [], ◌∷◌, if◌then◌else◌, ℤ, pos}
use nohands.Gsm.{GsmClipResult}
use nohands.Faults.{Result, ok, ◌>>=◌, ◌>>◌, assert}
use nohands.CallSetup.{cancel, Outcome, updated, violation, update_call_setup}
use nohands.Session.{
  AtCommand, HfpSession, emit, env, tell, no_hold_modes, no_inums, no_status, is_rfc_disconnected,
  disconnected, rfc_disconnected, aborted, notify_call, notify_connection,
}

-- `while (!m_commands.Empty()) DeleteFirstCommand(false);`
unfoldable pub abort_commands : List AtCommand → HfpSession → Result HfpSession
abort_commands [] s = ok (record s { commands = [] })
abort_commands (c ∷ cs) s = do
  t ← cancel s.command_timer
  abort_commands cs (tell c.pend aborted (record s { command_timer = t }))

-- The outcome of `UpdateCallSetup`, with the way to disconnect.
abbrev pub settle : (HfpSession → Result HfpSession) → HfpSession → Outcome → Result HfpSession
settle give_up s (updated c none) = ok (record s { call = c })
settle give_up s (updated c (some u)) = ok (emit (notify_call u) (record s { call = c }))
settle give_up s (violation c) = give_up (record s { call = c })

-- `NotifyConnectionState` once RFCOMM is disconnected. A callsetup value of 0 is no violation.
unfoldable pub notify_disconnected : Bool → HfpSession → Result HfpSession
notify_disconnected reason s = do
  assert (elim s.conn_state [ disconnected ↦ true | _ ↦ false ])
  o ← update_call_setup (env s) (pos 0) 0 none 0 s.call
  s' ← settle ok s o
  ok (if reason then emit (notify_connection true) s' else s')

-- The members that `__Disconnect` resets.
unfoldable pub unplugged : HfpSession → HfpSession
unplugged s = record s {
  conn_state = disconnected;
  chld = no_hold_modes;
  clip_enabled = false;
  ccwa_enabled = false;
  inums = no_inums;
  call = record s.call { state_call = false };
  status = no_status;
}

abbrev pub hang_up : Bool → HfpSession → Result HfpSession
hang_up reason s =
    if is_rfc_disconnected s.rfcomm_state
    then ok s
    else notify_disconnected reason
        (record s { rfcomm_state = rfc_disconnected; rfcomm_not = false })

-- `__Disconnect`; the flag is `reason != 0`. The SCO link is not modelled.
unfoldable pub disconnect : Bool → HfpSession → Result HfpSession
unfolding abort_commands unplugged
disconnect reason s = do s' ← abort_commands s.commands s; hang_up reason (unplugged s')

-- `UpdateCallSetup` on the session: an unknown value ends the connection.
unfoldable pub update_call : ℤ → ℕ → Option GsmClipResult → ℕ → HfpSession → Result HfpSession
update_call val ring clip timeout_ms s = do
  o ← update_call_setup (env s) val ring clip timeout_ms s.call
  settle (disconnect true) s o
