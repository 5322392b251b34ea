-- ===== src/Rfcomm/Requests.antt =====
-- What a client or the system asks of an RfcommSession of libhfp/rfcomm.cpp: Connect, the answer to the
-- SDP lookup, an inbound connection, the timeout of an operation, automatic connection.
use nohands.Prelude.{
  ℕ, zero, suc, Bool, true, false, not, ◌&&◌, ◌||◌, [], ◌∷◌, ◌++◌, if◌then◌else◌, is_empty, length,
}
use nohands.Faults.{null_pointer, out_of_fuel, Result, ok, fault, ◌>>=◌, ◌>>◌, assert}
use nohands.Session.{disconnected, rfcomm_connecting}
use nohands.Rfcomm.{
  rfc_disconnected, rfc_sdp_lookup_channel, rfc_connected, RfcommSession, Service, put,
  is_rfc_disconnected, is_rfc_sdp, is_rfcomm_connected, is_rfcomm_connecting, is_bts_disconnected,
  get_ref,
}
use nohands.Rfcomm.Reconnect.{add_auto_reconnect, remove_auto_reconnect}
use nohands.Rfcomm.Connect.{
  Answers, clear_operation_timeout, set_operation_timeout, disconnect, release, notify_connected,
  rfcomm_connect,
}

-- RfcommSdpLookupChannel of session `s`; `submitted` is whether the task could be created and submitted.
unfoldable pub sdp_lookup : Bool → ℕ → RfcommSession → Service → Result (Service × Bool)
sdp_lookup submitted i s w = do
  assert (is_rfc_disconnected s.state)
  if not submitted then ok (w, false) else do
    let w1 = put i (record (get_ref s) { state = rfc_sdp_lookup_channel; sdp_task = true }) w
    w2 ← if s.autoreconnect then remove_auto_reconnect i w1 else ok w1
    ok (w2, true)

abbrev pub rfcomm_sdp_lookup_channel : Bool → ℕ → Service → Result (Service × Bool)
rfcomm_sdp_lookup_channel submitted i w = sdp_lookup submitted i (w.sessions i) w

-- After the lookup has been asked for: the timer is set off again where it has not.
abbrev pub unless_looked : ℕ → Service × Bool → Service × Bool
unless_looked i (w, done) =
    (if done then w else put i (clear_operation_timeout (w.sessions i)) w, done)

-- RfcommConnect of session `s` without a channel.
unfoldable pub lookup_connect : Bool → Bool → ℕ → RfcommSession → Service → Result (Service × Bool)
lookup_connect new_timer submitted i s w =
    let (s', set) = set_operation_timeout new_timer s in
    if not (is_rfc_disconnected s.state)
    then ok (w, false)
    else if not set
    then ok (put i s' w, false)
    else do r ← rfcomm_sdp_lookup_channel submitted i (put i s' w); ok (unless_looked i r)

abbrev pub rfcomm_lookup_connect : Bool → Bool → ℕ → Service → Result (Service × Bool)
rfcomm_lookup_connect new_timer submitted i w =
    lookup_connect new_timer submitted i (w.sessions i) w

-- The end of `HfpSession::Connect`.
abbrev pub unless_connecting : ℕ → Service × Bool → Service × Bool
unless_connecting i (w, done) =
    (if done then w else put i (record (w.sessions i) { conn_state = disconnected }) w, done)

-- `HfpSession::Connect`.
unfoldable pub connect : Bool → Bool → ℕ → Service → Result (Service × Bool)
connect new_timer submitted i w =
    let s = w.sessions i in
    if not (is_bts_disconnected s.conn_state) then ok (w, true) else do
      r ←
          rfcomm_lookup_connect new_timer submitted i
            (put i (record s { conn_state = rfcomm_connecting }) w)
      ok (unless_connecting i r)

-- `HfpSession::AutoReconnect`.
unfoldable pub auto_reconnect : Bool → Bool → ℕ → Service → Result Service
auto_reconnect new_timer submitted i w = do
  assert (is_bts_disconnected (w.sessions i).conn_state)
  r ← connect new_timer submitted i w
  ok (r.0)

-- RfcommSdpLookupChannelComplete; `found` is that the lookup has no error.
unfoldable pub rfcomm_sdp_lookup_channel_complete : Bool → Answers → ℕ → Service → Result Service
rfcomm_sdp_lookup_channel_complete found a i w = do
  let s = w.sessions i
  assert s.sdp_task
  assert (is_rfc_sdp s.state)
  let s1 = record s { operation_timeout = false; inbound = false; sdp_task = false }
  if not found then disconnect false i (put i s1 w) else do
    (w2, done) ← rfcomm_connect a i (put i (record s1 { state = rfc_disconnected }) w)
    w3 ←
        if done
        then ok w2
        else disconnect false i
            (put i (record (get_ref (w2.sessions i)) { state = rfc_sdp_lookup_channel }) w2)
    release i w3

-- RfcommAccept.
unfoldable pub rfcomm_accept : Bool → ℕ → Service → Result (Service × Bool)
rfcomm_accept shaken i w =
    let s = w.sessions i in
    if not (is_rfc_disconnected s.state) then ok (w, false) else do
      let w1 = put i (record (get_ref s) { sock = true; inbound = true; state = rfc_connected }) w
      w2 ← if s.autoreconnect then remove_auto_reconnect i w1 else ok w1
      w3 ← notify_connected shaken i w2
      ok (w3, true)

-- RfcommOperationTimeout.
unfoldable pub rfcomm_operation_timeout : ℕ → Service → Result Service
rfcomm_operation_timeout i w = do
  let s = w.sessions i
  assert (is_rfcomm_connecting s.state || is_rfcomm_connected s.state)
  assert s.operation_timeout
  disconnect false i w

-- SetAutoReconnect.
unfoldable pub set_auto_reconnect : Bool → ℕ → Service → Result Service
set_auto_reconnect enable i w =
    let s = w.sessions i in
    if enable && not s.autoreconnect
    then (do
      let w1 = put i (record (get_ref s) { autoreconnect = true }) w
      if is_rfc_disconnected s.state then add_auto_reconnect true i w1 else ok w1)
    else if not enable && s.autoreconnect
    then (do
      let w1 = put i (record s { autoreconnect = false }) w
      w2 ← if is_rfc_disconnected s.state then remove_auto_reconnect i w1 else ok w1
      release i w2)
    else ok w

-- The answers to the connections that AutoReconnectTimeout asks for: whether a timer can be created and
-- an SDP task submitted.
abbrev pub Dials : Type 0
Dials = ℕ → Bool × Bool

-- The loop of AutoReconnectTimeout over `retrylist`, which only shrinks.
unfoldable pub retry_all : Dials → ℕ → Service → Result Service
retry_all dials zero w = if is_empty w.retry then ok w else fault out_of_fuel
retry_all dials (suc fuel) w = elim w.retry [
  | [] ↦ ok w
  | i ∷ is ↦ do
    w' ← auto_reconnect (dials i).0 (dials i).1 i (record w { retry = is; list = w.list ++ i ∷ [] })
    retry_all dials fuel w'
]

-- The end of AutoReconnectTimeout: the delayed timer is set for what is left.
unfoldable pub set_again : Service → Result Service
set_again w =
    if not (is_empty w.list) && not w.list_set
    then (if w.timer then ok (record w { list_set = true }) else fault null_pointer)
    else ok w

-- AutoReconnectTimeout of one of the two timers.
unfoldable pub auto_reconnect_timeout : Bool → Dials → Service → Result Service
auto_reconnect_timeout now dials w =
    if now
    then (do
      assert w.now_set
      w' ←
          retry_all dials (length w.now_list)
            (record w { now_set = false; retry = w.now_list; now_list = [] })
      set_again w')
    else do
      assert w.list_set
      w' ←
          retry_all dials (length w.list) (record w { list_set = false; retry = w.list; list = [] })
      set_again w'
