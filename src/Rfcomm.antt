-- ===== src/Rfcomm.antt =====
-- The connections of libhfp/rfcomm.cpp and the part of HfpSession that they meet: the state of a
-- session, and the lists of sessions that the service is to connect again.
pub mod Reconnect
pub mod Connect
pub mod Requests
pub mod Frame
pub mod Invariant
pub mod Keeps
pub mod Dials
pub mod Ends
pub mod Opens
pub mod Asks
pub mod Retries
pub mod Redials
pub mod Auto
pub mod Serve
pub mod Safe
pub mod Timeouts
use nohands.Prelude.{
  ℕ, zero, suc, ◌+◌, ◌-◌, Bool, true, false, not, ◌||◌, List, [], ◌∷◌, ◌==◌, ltb, if◌then◌else◌,
}
use nohands.Faults.{Result, ok, ◌>>=◌, ◌>>◌, assert}
use nohands.Session.{ConnState, disconnected, rfcomm_connecting}

-- `m_rfcomm_state`.
pub data State : Type 0 where
  rfc_disconnected rfc_sdp_lookup_channel rfc_connecting rfc_connected : State

-- RfcommSession, with `m_conn_state` of HfpSession. A pointer is whether it is set, a socket whether it
-- is open; `refs` is `m_refs` of BtManaged.
pub record RfcommSession : Type 0 where
  pub state : State
  pub conn_state : ConnState
  pub sdp_task : Bool
  pub inbound : Bool
  pub dcvoluntary : Bool
  pub sock : Bool
  pub notifier : Bool
  pub autoreconnect : Bool
  pub operation_timeout : Bool
  pub refs : ℕ

-- RfcommService with all of its sessions. A timer is whether it has been created; `retry` is the list
-- that AutoReconnectTimeout has on its stack.
pub record Service : Type 0 where
  pub sessions : ℕ → RfcommSession
  pub list : List ℕ
  pub list_set : Bool
  pub timer : Bool
  pub now_list : List ℕ
  pub now_set : Bool
  pub now_timer : Bool
  pub retry : List ℕ

abbrev pub update : (ℕ → RfcommSession) → ℕ → RfcommSession → ℕ → RfcommSession
update f i s j = if j == i then s else f j

abbrev pub put : ℕ → RfcommSession → Service → Service
put i s w = record w { sessions = update w.sessions i s }

abbrev pub is_rfc_disconnected : State → Bool
is_rfc_disconnected rfc_disconnected = true
is_rfc_disconnected _ = false

abbrev pub is_rfc_sdp : State → Bool
is_rfc_sdp rfc_sdp_lookup_channel = true
is_rfc_sdp _ = false

abbrev pub is_rfc_connecting : State → Bool
is_rfc_connecting rfc_connecting = true
is_rfc_connecting _ = false

-- `IsRfcommConnected` and `IsRfcommConnecting`.
abbrev pub is_rfcomm_connected : State → Bool
is_rfcomm_connected rfc_connected = true
is_rfcomm_connected _ = false

abbrev pub is_rfcomm_connecting : State → Bool
is_rfcomm_connecting rfc_sdp_lookup_channel = true
is_rfcomm_connecting rfc_connecting = true
is_rfcomm_connecting _ = false

abbrev pub is_bts_disconnected : ConnState → Bool
is_bts_disconnected disconnected = true
is_bts_disconnected _ = false

abbrev pub is_opening : ConnState → Bool
is_opening rfcomm_connecting = true
is_opening _ = false

-- BtManaged::Get and Put, for an object that is not destroyed meanwhile.
abbrev pub get_ref : RfcommSession → RfcommSession
get_ref s = record s { refs = s.refs + 1 }

abbrev pub put_ref : RfcommSession → Result RfcommSession
put_ref s = do assert (ltb 0 s.refs); ok (record s { refs = s.refs - 1 })
