-- ===== src/Session/Lines.antt =====
-- `HfpConsume`'s treatment of a line, `HfpHandshake`, `HfpHandshakeDone`, `CommandTimeout` and the
-- rest of `NotifyConnectionState` of libhfp/hfp.cpp.
use nohands.Prelude.{
  is_empty, Bool, true, false, not, ◌&&◌, none, List, [], ◌∷◌, if◌then◌else◌, ℤ, pos,
}
use nohands.Text.{Bytes}
use nohands.Faults.{Result, ok, ◌>>=◌, ◌>>◌, assert}
use nohands.CallSetup.{Timer, missing, idle}
use nohands.Session.{
  ConnState, disconnected, rfcomm_connecting, handshaking, connected, Command, brsf, cind_test,
  cind_read, cmer, clip_enable, ccwa_enable, AtCommand, HfpSession, is_connected,
  is_rfcomm_connected, emit, notify_connection,
}
use nohands.Session.Disconnect.{disconnect}
use nohands.Session.Commands.{add_command, delete_first_command}
use nohands.Session.Replies.{i_response}
use nohands.Session.Unsolicited.{response_default}

abbrev pub is_handshaking : ConnState → Bool
is_handshaking handshaking = true
is_handshaking _ = false

abbrev pub command : Command → AtCommand
command kind = record { kind = kind; pend = none }

-- The first command, if there is one, is handed the line.
unfoldable pub consume_first : List AtCommand → Bytes → HfpSession → Result HfpSession
consume_first [] buf s = ok s
consume_first (c ∷ cs) buf s = do
  r ← i_response c.kind buf s
  if r.1 then delete_first_command true r.0 else ok r.0

unfoldable pub hfp_handshake_done : HfpSession → Result HfpSession
hfp_handshake_done s = do
  assert (is_handshaking s.conn_state)
  r ← add_command (command cind_read) false (record s { conn_state = connected })
  if not r.1
      then disconnect true r.0
      else (do assert (is_connected r.0); ok (emit (notify_connection false) r.0))

-- What `HfpConsume` does with a line, once it has put the NUL at its end.
unfoldable pub consume_line : Bytes → HfpSession → Result HfpSession
unfolding consume_first
consume_line buf s = do
  s1 ← consume_first s.commands buf s
  s2 ← if is_rfcomm_connected s1 then response_default buf s1 else ok s1
  if is_rfcomm_connected s2 && is_handshaking s2.conn_state && is_empty s2.commands
      then hfp_handshake_done s2
      else ok s2

-- `a && b && ...` of the five `AddCommand`s: the first that fails ends the chain.
unfoldable pub add_each : List Command → HfpSession → Result (HfpSession × Bool)
add_each [] s = ok (s, true)
add_each (k ∷ ks) s = do
  r ← add_command (command k) false s
  if r.1 then add_each ks r.0 else ok (r.0, false)

unfoldable pub hfp_handshake : ℤ → HfpSession → Result (HfpSession × Bool)
unfolding add_each
hfp_handshake my_caps s = do
  assert (is_handshaking s.conn_state)
  assert (not s.rfcomm_not)
  add_each (brsf my_caps (pos 0) ∷ cind_test ∷ cmer ∷ clip_enable ∷ ccwa_enable ∷ [])
      (record s { rfcomm_not = true })

abbrev set_up : Timer → Timer
set_up missing = idle
set_up t = t

abbrev is_ready : ConnState → Bool
is_ready disconnected = true
is_ready rfcomm_connecting = true
is_ready _ = false

-- `NotifyConnectionState` once RFCOMM is connected; `my_caps` is `m_brsf_my_caps` of the service,
-- and `inbound` is `IsConnectionRemoteInitiated()`. There is memory for the timers.
unfoldable pub notify_rfcomm_connected : ℤ → Bool → HfpSession → Result HfpSession
unfolding hfp_handshake
notify_rfcomm_connected my_caps inbound s = do
  assert (is_ready s.conn_state)
  let s1 = record s {
    conn_state = handshaking;
    command_timer = set_up s.command_timer;
    call = record s.call { timer = set_up s.call.timer; clip_timer = set_up s.call.clip_timer };
  }
  r ← hfp_handshake my_caps s1
  s2 ← if r.1 then ok r.0 else disconnect true r.0
  ok (if is_rfcomm_connected s2 && inbound then emit (notify_connection false) s2 else s2)

-- `CommandTimeout`: the audio gateway did not answer in time.
unfoldable pub command_timeout : HfpSession → Result HfpSession
command_timeout s = disconnect true s
