-- ===== src/Rfcomm/Connect.antt =====
-- RfcommSession of libhfp/rfcomm.cpp, with Connect, AutoReconnect and NotifyConnectionState of
-- HfpSession in libhfp/hfp.cpp. What the system answers is an argument.
use nohands.Prelude.{ℕ, Bool, true, false, not, ◌&&◌, ◌||◌, if◌then◌else◌}
use nohands.Faults.{Result, ok, ◌>>=◌, ◌>>◌, assert}
use nohands.Session.{disconnected, handshaking}
use nohands.Rfcomm.{
  rfc_disconnected, rfc_connecting, rfc_connected, RfcommSession, Service, put, is_rfc_disconnected,
  is_rfc_sdp, is_rfc_connecting, is_bts_disconnected, is_opening, get_ref, put_ref,
}
use nohands.Rfcomm.Reconnect.{listed, add_auto_reconnect, remove_auto_reconnect}

-- RfcommSetOperationTimeout: of no milliseconds, and of some, where `new_timer` is whether a timer can
-- be created.
abbrev pub clear_operation_timeout : RfcommSession → RfcommSession
clear_operation_timeout s = record s { operation_timeout = false }

abbrev pub set_operation_timeout : Bool → RfcommSession → RfcommSession × Bool
set_operation_timeout new_timer s = (
  record s { operation_timeout = s.operation_timeout || new_timer },
  s.operation_timeout || new_timer,
)

-- The assertions of `__Disconnect` on what it closes.
abbrev pub closes : RfcommSession → Result (Unit {0})
closes s = do
  assert (not s.notifier || (not (is_rfc_sdp s.state) && s.sock))
  assert (not s.sock || not (is_rfc_sdp s.state))
  assert (not s.sdp_task || is_rfc_sdp s.state)

abbrev pub closed : Bool → RfcommSession → RfcommSession
closed voluntary s = record s {
  operation_timeout = false;
  notifier = false;
  sock = false;
  sdp_task = false;
  dcvoluntary = voluntary;
  state = rfc_disconnected;
}

-- `Put` on the session.
unfoldable pub release : ℕ → Service → Result Service
release i w = do s ← put_ref (w.sessions i); ok (put i s w)

-- `NotifyConnectionState` of a session that is disconnected, and `Put`.
unfoldable pub notify_disconnected : ℕ → Service → Result Service
notify_disconnected i w = do assert (is_bts_disconnected (w.sessions i).conn_state); release i w

-- `RfcommSession::__Disconnect` of a session `s` that is not disconnected.
unfoldable pub close_session : Bool → ℕ → RfcommSession → Service → Result Service
close_session voluntary i s w = do
  closes s
  let w1 = put i (closed voluntary s) w
  w2 ← if s.autoreconnect then add_auto_reconnect false i w1 else ok w1
  notify_disconnected i w2

-- `HfpSession::__Disconnect`, as far as it concerns the connection, with that of RfcommSession.
unfoldable pub disconnect : Bool → ℕ → Service → Result Service
disconnect voluntary i w =
    let s = record (w.sessions i) { conn_state = disconnected } in
    if is_rfc_disconnected s.state then ok (put i s w) else close_session voluntary i s w

-- `NotifyConnectionState` of a session that is connected, with the notifier that HfpHandshake creates.
-- `shaken` is whether the timers could be created and HfpHandshake could send its first command. Without
-- the timers there is no notifier; `disconnect` does the same on both.
unfoldable pub notify_connected : Bool → ℕ → Service → Result Service
notify_connected shaken i w = do
  let s = w.sessions i
  assert (is_bts_disconnected s.conn_state || is_opening s.conn_state)
  assert (not s.notifier)
  let w' = put i (record s { conn_state = handshaking; notifier = true }) w
  if shaken then ok w' else disconnect false i w'

-- RfcommConnectNotify. `notp` is whether it is the notifier that calls, `no_error` that the socket has
-- no error.
unfoldable pub rfcomm_connect_notify : Bool → Bool → Bool → ℕ → Service → Result Service
rfcomm_connect_notify notp no_error shaken i w = do
  let s = w.sessions i
  assert (is_rfc_connecting s.state)
  assert (if notp then s.notifier else not s.notifier)
  let w' = put i (record s { operation_timeout = false; notifier = false; state = rfc_connected }) w
  if no_error then notify_connected shaken i w' else disconnect false i w'

-- What `connect` does.
pub data Connecting : Type 0 where
  at_once in_progress failed : Connecting

-- The answers to RfcommConnect, in the order of the code: the adapter, the socket, `bind`, the link
-- mode, non-blocking mode, `connect`, a timer and a notifier.
pub record Answers : Type 0 where
  pub hci : Bool
  pub socket : Bool
  pub bind : Bool
  pub link_mode : Bool
  pub nonblock : Bool
  pub connect : Connecting
  pub new_timer : Bool
  pub new_socket : Bool
  pub no_error : Bool
  pub shaken : Bool

abbrev pub reaches_connect : Answers → Bool
reaches_connect a = a.socket && a.bind && a.link_mode && a.nonblock

-- The label `failure`. The source also asserts that an error is set, which is left out with the errors.
abbrev pub failure : ℕ → Service → Service
failure i w = put i (clear_operation_timeout (w.sessions i)) w

-- From the `Get` in RfcommConnect on.
unfoldable pub dialled : Answers → ℕ → Service → Result (Service × Bool)
dialled a i w = do
  let s = record (get_ref (w.sessions i)) { state = rfc_connecting; inbound = false; sock = true }
  let w1 = put i s w
  w2 ← if listed i w1 then remove_auto_reconnect i w1 else ok w1
  w3 ← if s.notifier then ok w2 else rfcomm_connect_notify false a.no_error a.shaken i w2
  ok (w3, true)

-- `connect` of session `s` is in progress: a timer, and a notifier.
unfoldable pub pending_connect : Answers → ℕ → RfcommSession → Service → Result (Service × Bool)
pending_connect a i s w =
    let (s', set) = set_operation_timeout a.new_timer s in
    if not set || not a.new_socket
    then ok (failure i (put i s' w), false)
    else dialled a i (put i (record s' { notifier = true }) w)

-- What follows on `connect`.
unfoldable pub on_connect : Connecting → Answers → ℕ → Service → Result (Service × Bool)
on_connect at_once a i w = dialled a i w
on_connect in_progress a i w = pending_connect a i (w.sessions i) w
on_connect failed a i w = ok (failure i w, false)

-- RfcommConnect to a channel.
unfoldable pub rfcomm_connect : Answers → ℕ → Service → Result (Service × Bool)
rfcomm_connect a i w = do
  assert (is_rfc_disconnected (w.sessions i).state)
  if not a.hci
      then ok (w, false)
      else if not (reaches_connect a)
      then ok (failure i w, false)
      else on_connect a.connect a i w
