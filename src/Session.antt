-- ===== src/Session.antt =====
-- The state of an HfpSession of libhfp/hfp.cpp and include/libhfp/hfp.h, and what all of its parts use.
pub mod Disconnect
pub mod Commands
pub mod Indicators
pub mod Hold
pub mod Replies
pub mod Unsolicited
pub mod Lines
pub mod Invariant
pub mod Safe
pub mod SafeLines
pub mod Owed
pub mod Queue
pub mod Once
pub mod Callbacks
pub mod CallbacksOnce
pub mod LinesOnce
pub mod Dangling
pub mod Values
pub mod Client
pub mod Reader
pub mod Framing
use nohands.Prelude.{
  ℕ, zero, suc, ◌+◌, ◌-◌, ◌/◌, ◌%◌, ◌^◌, Bool, true, false, not, ◌&&◌, ◌||◌, Option, none, some,
  List, [], ◌∷◌, ◌++◌, ◌==◌, if◌then◌else◌, ℤ, pos, negsuc, ◌==ℤ◌, pos_part, neg_part,
}
use nohands.Text.{Bytes}
use nohands.Gsm.{GsmCnumResult, GsmCopsResult, GsmClccResult, GsmClipResult}
use nohands.Faults.{assertion, null_pointer, dangling, Result, ok, fault, ◌>>=◌, ◌>>◌, assert}
use nohands.CallSetup.{
  Timer, missing, idle, armed, set_timer, cancel, Call, Env, Updates, Outcome, updated, violation,
  update_call_setup,
}

pub data ConnState : Type 0 where
  disconnected rfcomm_connecting handshaking connected : ConnState

-- `m_rfcomm_state`, as `IsRfcommConnecting` and `IsRfcommConnected` read it.
pub data RfcommState : Type 0 where
  rfc_disconnected rfc_connecting rfc_connected : RfcommState

-- The classes derived from AtCommand, with their members.
pub data Command : Type 0 where
  plain : Bytes → Command
  generic : Bytes → Option Bytes → Command
  chld_test : Command
  brsf : ℤ → ℤ → Command
  cind_test : Command
  cind_read : Command
  cmer : Command
  clip_enable : Command
  ccwa_enable : Command
  cnum : Option GsmCnumResult → Command
  cops : Bool → Option GsmCopsResult → Command
  clcc : List GsmClccResult → Command
  bvra : Bool → Command
  nrec : Bool → Command
  atd : Bytes → Command
  clear_call_setup : Bytes → Command

-- `m_pend` is the number of the HfpPendingCommand that the client holds.
pub record AtCommand : Type 0 where
  pub kind : Command
  pub pend : Option ℕ

-- What a pending command is completed with.
pub data Reply : Type 0 where
  success : Reply
  generic_result : Bytes → Reply
  cnum_result : GsmCnumResult → Reply
  cops_result : GsmCopsResult → Reply
  clcc_results : List GsmClccResult → Reply
  rejected aborted unacceptable send_failed : Reply

-- What the session does to its surroundings: callbacks, and lines sent to the audio gateway.
pub data Event : Type 0 where
  notify_call : Updates → Event
  notify_indicator : Bytes → ℤ → Event
  notify_voice_recog : Bool → Event
  notify_volume : Bool → Bool → Event
  notify_in_band_ring_tone : Bool → Event
  notify_connection : Bool → Event
  sent : Bytes → Event
  completed : ℕ → Reply → Event

pub record HoldModes : Type 0 where
  pub chld_0 : Bool
  pub chld_1 : Bool
  pub chld_1x : Bool
  pub chld_2 : Bool
  pub chld_2x : Bool
  pub chld_3 : Bool
  pub chld_4 : Bool

-- `m_inum_*`; the length of `names` is `m_inum_names_len`.
pub record Inums : Type 0 where
  pub service : ℤ
  pub call : ℤ
  pub callsetup : ℤ
  pub callheld : ℤ
  pub signal : ℤ
  pub roam : ℤ
  pub battchg : ℤ
  pub names : List (Option Bytes)

pub record Status : Type 0 where
  pub service : Bool
  pub signal : ℤ
  pub roam : ℤ
  pub battchg : ℤ
  pub bvra : Bool
  pub bsir : Bool
  pub ecnr : Bool
  pub vgm : ℤ
  pub vgs : ℤ

pub record Timeouts : Type 0 where
  pub ring : ℕ
  pub ring_ccwa : ℕ
  pub dial : ℕ
  pub clip : ℕ
  pub command : ℕ

-- `memory_left` and `socket_open` stand for what the system answers: whether the next allocation
-- succeeds, and whether the next `send` takes the whole line. The newest event comes first.
pub record HfpSession : Type 0 where
  pub conn_state : ConnState
  pub rfcomm_state : RfcommState
  pub rfcomm_not : Bool
  pub call : Call
  pub clip_enabled : Bool
  pub ccwa_enabled : Bool
  pub brsf : ℤ
  pub chld : HoldModes
  pub inums : Inums
  pub status : Status
  pub commands : List AtCommand
  pub command_timer : Timer
  pub timeouts : Timeouts
  pub memory_left : Bool
  pub socket_open : Bool
  pub events : List Event

abbrev pub is_connected_state : ConnState → Bool
is_connected_state connected = true
is_connected_state _ = false

abbrev pub is_connected : HfpSession → Bool
is_connected s = is_connected_state s.conn_state

abbrev pub is_rfc_connected : RfcommState → Bool
is_rfc_connected rfc_connected = true
is_rfc_connected _ = false

abbrev pub is_rfc_disconnected : RfcommState → Bool
is_rfc_disconnected rfc_disconnected = true
is_rfc_disconnected _ = false

abbrev pub is_rfcomm_connected : HfpSession → Bool
is_rfcomm_connected s = is_rfc_connected s.rfcomm_state

abbrev pub emit : Event → HfpSession → HfpSession
emit e s = record s { events = e ∷ s.events }

abbrev pub env : HfpSession → Env
env s = record {
  connected = is_connected s;
  clip_enabled = s.clip_enabled;
  timeout_clip = s.timeouts.clip;
  timeout_ring = s.timeouts.ring;
  memory_left = s.memory_left;
}

abbrev pub no_hold_modes : HoldModes
no_hold_modes = record {
  chld_0 = false;
  chld_1 = false;
  chld_1x = false;
  chld_2 = false;
  chld_2x = false;
  chld_3 = false;
  chld_4 = false;
}

abbrev pub no_inums : Inums
no_inums = record {
  service = pos 0;
  call = pos 0;
  callsetup = pos 0;
  callheld = pos 0;
  signal = pos 0;
  roam = pos 0;
  battchg = pos 0;
  names = [];
}

abbrev pub no_status : Status
no_status = record {
  service = false;
  signal = negsuc 0;
  roam = negsuc 0;
  battchg = negsuc 0;
  bvra = false;
  bsir = false;
  ecnr = false;
  vgm = negsuc 0;
  vgs = negsuc 0;
}

-- `CompletePending` of a command that is being deleted or that heads the queue.
abbrev pub tell : Option ℕ → Reply → HfpSession → HfpSession
tell none reply s = s
tell (some id) reply s = emit (completed id reply) s
