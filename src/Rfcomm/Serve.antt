-- ===== src/Rfcomm/Serve.antt =====
-- What happens to an RfcommService of libhfp/rfcomm.cpp: calls of its client, of the system and of its
-- timers, one after the other.
use nohands.Prelude.{ℕ, ◌≡◌, Bool, true, false, if◌then◌else◌}
use nohands.Faults.{Result, ok, ◌>>=◌}
use nohands.Rfcomm.{Service, is_rfc_sdp, is_rfc_connecting}
use nohands.Rfcomm.Reconnect.{start, stop}
use nohands.Rfcomm.Connect.{Answers, disconnect, rfcomm_connect_notify}
use nohands.Rfcomm.Requests.{
  connect, rfcomm_sdp_lookup_channel_complete, rfcomm_accept, rfcomm_operation_timeout,
  set_auto_reconnect, Dials, auto_reconnect_timeout,
}

pub data Request : Type 0 where
  -- The client starts or stops the service, connects, disconnects, or sets automatic connection.
  start_service : Bool → Bool → Request
  stop_service : Request
  connect_to : ℕ → Bool → Bool → Request
  disconnect_from : ℕ → Bool → Request
  reconnect_to : ℕ → Bool → Request
  -- The system has looked up a channel, connected a socket, accepted one; a timer goes off.
  looked_up : ℕ → Bool → Answers → Request
  socket_writable : ℕ → Bool → Bool → Request
  accepted : ℕ → Bool → Request
  timed_out : ℕ → Request
  reconnect_timer : Bool → Dials → Request

unfoldable pub serve : Request → Service → Result Service
serve (start_service new_timer new_now_timer) w = do r ← start new_timer new_now_timer w; ok (r.0)
serve stop_service w = ok (stop w)
serve (connect_to i new_timer submitted) w = do r ← connect new_timer submitted i w; ok (r.0)
serve (disconnect_from i voluntary) w = disconnect voluntary i w
serve (reconnect_to i enable) w = set_auto_reconnect enable i w
serve (looked_up i found a) w = rfcomm_sdp_lookup_channel_complete found a i w
serve (socket_writable i no_error shaken) w = rfcomm_connect_notify true no_error shaken i w
serve (accepted i shaken) w = do r ← rfcomm_accept shaken i w; ok (r.0)
serve (timed_out i) w = rfcomm_operation_timeout i w
serve (reconnect_timer now dials) w = auto_reconnect_timeout now dials w

-- The system calls back only what has been asked for, timers go off only if they are set, and a service
-- is started once.
abbrev pub Possible : Request → Service → Type 0
Possible (start_service new_timer new_now_timer) w = w.timer ≡ false
Possible stop_service w = Unit
Possible (connect_to i new_timer submitted) w = Unit
Possible (disconnect_from i voluntary) w = Unit
Possible (reconnect_to i enable) w = Unit
Possible (looked_up i found a) w = is_rfc_sdp (w.sessions i).state ≡ true
Possible (socket_writable i no_error shaken) w = is_rfc_connecting (w.sessions i).state ≡ true
Possible (accepted i shaken) w = Unit
Possible (timed_out i) w = (w.sessions i).operation_timeout ≡ true
Possible (reconnect_timer now dials) w = (if now then w.now_set else w.list_set) ≡ true

pub data Reach (w : Service) : Service → Type 0 where
  here : Reach w w
  next :
      {w' w'' : Service} (r : Request)
      → Reach w w'
      → Possible r w'
      → serve r w' ≡ ok w''
      → Reach w w''
