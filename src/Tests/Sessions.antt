-- ===== src/Tests/Sessions.antt =====
-- Examples for the sessions of libhfp/hfp.cpp.
use nohands.Prelude.{suc, ◌≡◌, refl, true, false, none, some, [], ◌∷◌, ◌++◌, pos, arith}
use nohands.Text.{Bytes, codes, str_eq, strip_prefix}
use nohands.Faults.{assertion, dangling, null_pointer, ok, fault}
use nohands.CallSetup.{idle, armed, Call, clip_unknown}
use nohands.Faults.Post.{Holds}
use nohands.CallSetup.Invariant.{Inv, Legal}
use nohands.Session.{
  connected, handshaking, rfc_connected, cmer, cops, plain, HfpSession, completed, success, sent,
  no_hold_modes, no_inums, no_status, env,
}
use nohands.Session.Disconnect.{disconnect}
use nohands.Session.Commands.{pending_command, command_text, delete_first_command}
use nohands.Session.Replies.{ok_reply, i_response}
use nohands.Session.Indicators.{update_indicator}
use nohands.Session.Unsolicited.{response_default}
use nohands.Session.Lines.{consume_line}
use nohands.Session.Invariant.{SessionInv, Gone, disconnect-Gone}
use nohands.Session.Safe.{update_indicator-SessionInv}
use nohands.Session.SafeLines.{response_default-SessionInv}
use nohands.Session.Owed.{owed}
use nohands.Session.Queue.{pending_command-owed}
use nohands.Session.LinesOnce.{consume_line-owed}
use nohands.Session.Dangling.{rejected_cmer, unwritten_cops, unwritten_command}

abbrev idle_call : Call
idle_call = record {
  state_call = false;
  state_callsetup = pos 0;
  callsetup_presumed = false;
  timer = idle;
  clip_timer = idle;
  clip_state = clip_unknown;
  clip_value = none;
}

abbrev pub ready : HfpSession
ready = record {
  conn_state = connected;
  rfcomm_state = rfc_connected;
  rfcomm_not = true;
  call = idle_call;
  clip_enabled = true;
  ccwa_enabled = true;
  brsf = pos 0;
  chld = no_hold_modes;
  inums = record no_inums { callsetup = pos 3 };
  status = no_status;
  commands = [];
  command_timer = idle;
  timeouts = record { ring = 5000; ring_ccwa = 10000; dial = 20000; clip = 250; command = 8000 };
  memory_left = true;
  socket_open = true;
  events = [];
}

idle_call-Inv : (s : HfpSession) → s.call ≡ idle_call → Inv (env s) s.call
idle_call-Inv s e = ground arith

ready-SessionInv : SessionInv ready
ready-SessionInv = record {
  call_inv = idle_call-Inv ready refl;
  command_timer = λ h. cc;
  channel = λ h. refl;
  incomplete = λ h. refl;
}

abbrev closed : HfpSession
closed = record ready { socket_open = false }

closed-SessionInv : SessionInv closed
closed-SessionInv = record {
  call_inv = idle_call-Inv closed refl;
  command_timer = λ h. cc;
  channel = λ h. refl;
  incomplete = λ h. refl;
}

abbrev shaking : HfpSession
shaking = record ready {
  conn_state = handshaking;
  commands = record { kind = cmer; pend = none } ∷ [];
  command_timer = armed 8000;
}

shaking-SessionInv : SessionInv shaking
shaking-SessionInv = record {
  call_inv = idle_call-Inv shaking refl;
  command_timer = λ h. cc;
  channel = λ h. refl;
  incomplete = λ h. absurd (h refl);
}

abbrev hung_up : Bytes
hung_up = codes "AT+CHUP"

-- One command of a client, with number 7, is under way.
abbrev busy : HfpSession
busy = record ready {
  commands = record { kind = plain hung_up; pend = some 7 } ∷ [];
  command_timer = armed 8000;
  events = sent (hung_up ++ b'\r' ∷ []) ∷ [];
}

pending_run : pending_command (plain hung_up) 7 ready ≡ ok (busy, true)
unfolding pending_command command_text
pending_run = refl

pending_command-owed_example : owed 7 busy ≡ suc (owed 7 ready)
pending_command-owed_example = pending_command-owed 7 (plain hung_up) ready busy pending_run

abbrev answered : HfpSession
answered = record ready { events = completed 7 success ∷ sent (hung_up ++ b'\r' ∷ []) ∷ [] }

answered_run : consume_line (codes "OK") busy ≡ ok answered
unfolding consume_line i_response str_eq ok_reply delete_first_command response_default strip_prefix
answered_run = refl

consume_line-owed_example : owed 7 answered ≡ owed 7 busy
consume_line-owed_example = consume_line-owed 7 (codes "OK") busy answered answered_run

disconnect-Gone_example : Holds Gone (disconnect true shaking)
disconnect-Gone_example = disconnect-Gone true shaking shaking-SessionInv

dial-Legal : Legal (pos 2) 0 none 20000
dial-Legal = record {
  none_clip = λ h. refl;
  none_ring = λ h. refl;
  none_timeout = λ h k. absurd (k refl);
}

update_indicator-SessionInv_example : Holds SessionInv (update_indicator (pos 3) (codes "9") ready)
update_indicator-SessionInv_example =
    update_indicator-SessionInv (pos 3) (codes "9") ready ready-SessionInv

response_default-SessionInv_example : Holds SessionInv (response_default (codes "RING") ready)
response_default-SessionInv_example =
    response_default-SessionInv (codes "RING") ready ready-SessionInv

rejected_cmer_example : consume_line (codes "ERROR") shaking ≡ fault assertion
rejected_cmer_example = rejected_cmer shaking none [] shaking-SessionInv refl

unwritten_cops_example : ok_reply (cops false none) closed ≡ fault dangling
unwritten_cops_example = unwritten_cops closed none closed-SessionInv refl refl refl

unwritten_command_example : pending_command (plain hung_up) 7 closed ≡ fault null_pointer
unwritten_command_example =
    unwritten_command closed (plain hung_up) 7 closed-SessionInv refl refl refl refl
