-- ===== src/CallSetup.antt =====
-- The call, callsetup and clip states of an HfpSession: `ClearClip`, `UpdateCallSetup`, `Timeout`
-- and `ClipTimeout` of libhfp/hfp.cpp. The members they read of the rest of the session are in
-- `Env`. A failed `assert`, a call through a null pointer and a use of a deleted object are faults.
pub mod Invariant
pub mod Safe
pub mod Notify
pub mod Ring
use nohands.Prelude.{
  ℕ, zero, suc, Bool, true, false, not, ◌&&◌, ◌||◌, Option, none, some, ◌==◌, if◌then◌else◌, ℤ, pos,
  ◌==ℤ◌,
}
use nohands.Faults.{
  Fault, Result, assert, assertion, dangling, fault, null_pointer, ok, ◌>>=◌, ◌>>◌,
}
use nohands.Gsm.{GsmClipResult, compare_clip}

-- A `TimerNotifier *`: null, not set, or set to go off after some milliseconds.
pub data Timer : Type 0 where
  missing idle : Timer
  armed : ℕ → Timer

abbrev pub is_armed : Timer → Bool
is_armed (armed ms) = true
is_armed _ = false

abbrev pub set_timer : Timer → ℕ → Result Timer
set_timer missing ms = fault null_pointer
set_timer _ ms = ok (armed ms)

abbrev pub cancel : Timer → Result Timer
cancel missing = fault null_pointer
cancel _ = ok idle

-- `if (t) t->Cancel()`
abbrev pub cancel_if : Timer → Timer
cancel_if missing = missing
cancel_if _ = idle

pub data ClipState : Type 0 where
  clip_unknown clip_waiting clip_final : ClipState

pub record Call : Type 0 where
  pub state_call : Bool
  pub state_callsetup : ℤ
  pub callsetup_presumed : Bool
  pub timer : Timer
  pub clip_timer : Timer
  pub clip_state : ClipState
  pub clip_value : Option GsmClipResult

-- `IsConnected()`, `m_clip_enabled`, the timeouts, and whether memory is left for a copy.
pub record Env : Type 0 where
  pub connected : Bool
  pub clip_enabled : Bool
  pub timeout_clip : ℕ
  pub timeout_ring : ℕ
  pub memory_left : Bool

-- The arguments of `cb_NotifyCall`: `upd_ac`, `upd_wc` and `do_ring`.
pub record Updates : Type 0 where
  pub upd_ac : Bool
  pub upd_wc : Bool
  pub do_ring : Bool

abbrev pub no_updates : Updates
no_updates = record { upd_ac = false; upd_wc = false; do_ring = false }

abbrev pub is_set : Option GsmClipResult → Bool
is_set none = false
is_set (some c) = true

abbrev pub is_final : ClipState → Bool
is_final clip_final = true
is_final _ = false

abbrev pub is_waiting : ClipState → Bool
is_waiting clip_waiting = true
is_waiting _ = false

abbrev cancel_waiting : ClipState → Timer → Result Timer
cancel_waiting clip_waiting t = cancel t
cancel_waiting _ t = ok t

unfoldable pub clear_clip : Call → Result Call
clear_clip c = do
  t ← cancel_waiting c.clip_state c.clip_timer
  assert (not (is_set c.clip_value) || is_final c.clip_state)
  ok (record c { clip_timer = t; clip_value = none; clip_state = clip_unknown })

-- The presumption at the head of `UpdateCallSetup`.
pub presume : Env → ℤ → ℕ → Call → Result Call
presume e val timeout_ms c =
    let t = if c.callsetup_presumed then cancel_if c.timer else c.timer in
    if e.connected
      && not (timeout_ms == 0)
      && (c.callsetup_presumed || not (c.state_callsetup ==ℤ val))
    then (do t' ← set_timer t timeout_ms; ok (record c { callsetup_presumed = true; timer = t' }))
    else ok (record c { callsetup_presumed = false; timer = t })

-- `clip && (!m_clip_value || !m_clip_value->Compare(clip))`
abbrev differs : Option GsmClipResult → Option GsmClipResult → Bool
differs none value = false
differs (some clip) none = true
differs (some clip) (some value) = not (compare_clip value clip)

-- `if (differs) { cpy = clip->Duplicate(); if (cpy) { m_clip_value = cpy; upd_wc = true; } }`
abbrev replace_clip : Env → Option GsmClipResult → Call → Call × Bool
replace_clip e clip c =
    if differs clip c.clip_value && e.memory_left
    then (record c { clip_value = clip }, true)
    else (c, false)

-- `case CLIP_UNKNOWN` for an incoming call; nothing is updated there.
incoming_unknown : Env → Bool → Option GsmClipResult → Call → Result Call
incoming_unknown e ring (some clip) c =
    ok (if e.memory_left then record c { clip_value = some clip; clip_state = clip_final } else c)
incoming_unknown e ring none c =
    if not ring
    then ok c
    else if e.clip_enabled
    then (do
      t ← set_timer c.clip_timer e.timeout_clip
      ok (record c { clip_timer = t; clip_state = clip_waiting }))
    else ok (record c { clip_state = clip_final })

-- `case CLIP_WAITING`; the flag is `do_ring`.
incoming_waiting : Env → Option GsmClipResult → Call → Result (Call × Bool)
incoming_waiting e none c = ok (c, false)
incoming_waiting e (some clip) c =
    if e.memory_left
    then (do
      t ← cancel c.clip_timer
      ok (record c { clip_value = some clip; clip_state = clip_final; clip_timer = t }, true))
    else ok (c, true)

-- `switch (m_clip_state)` for an incoming call.
incoming_clip : Env → ClipState → Bool → Option GsmClipResult → Call → Result (Call × Updates)
unfolding incoming_unknown incoming_waiting
incoming_clip e clip_unknown ring clip c = do
  assert (not (is_set c.clip_value))
  c' ← incoming_unknown e ring clip c
  ok (c', no_updates)
incoming_clip e clip_waiting ring clip c = do
  assert (not (is_set c.clip_value))
  r ← incoming_waiting e clip c
  ok (r.0, record no_updates { do_ring = r.1 })
incoming_clip e clip_final ring clip c =
    let r = replace_clip e clip c in ok (r.0, record no_updates { upd_wc = r.1 })

-- `if (ring)`: an ordinary ring ends the active call, a call waiting ring implies one.
ring_call : ℕ → Call × Updates → Call × Updates
ring_call ring (c, u) =
    if ring == 1 && c.state_call
    then (record c { state_call = false }, record u { upd_ac = true })
    else if ring == 2 && not c.state_call
    then (record c { state_call = true }, record u { upd_ac = true })
    else (c, u)

incoming_ring : ℕ → Call × Updates → Call × Updates
unfolding ring_call
incoming_ring ring (c, u) =
    if ring == 0
    then (c, u)
    else let (c', u') = ring_call ring (c, u) in
      (c', record u' { do_ring = u.do_ring || is_final c.clip_state })

-- `case 1`: incomplete incoming call.
pub incoming : Env → ℕ → Option GsmClipResult → Call → Result (Call × Updates)
unfolding incoming_clip incoming_ring
incoming e ring clip c = do
  c' ←
      if not (c.state_callsetup ==ℤ pos 0) && not (c.state_callsetup ==ℤ pos 1)
      then clear_clip c
      else ok c
  r ← incoming_clip e c'.clip_state (not (ring == 0)) clip c'
  ok (incoming_ring ring r)

-- `case 2` and `case 3`: incomplete outgoing call.
pub outgoing : Env → ℕ → Option GsmClipResult → Call → Result (Call × Updates)
outgoing e ring clip c = do
  assert (ring == 0)
  c' ←
      if not (c.state_callsetup ==ℤ pos 0)
        && not (c.state_callsetup ==ℤ pos 2)
        && not (c.state_callsetup ==ℤ pos 3)
      then clear_clip c
      else ok c
  assert (not (is_waiting c'.clip_state))
  assert (is_final c'.clip_state || not (is_set c'.clip_value))
  let r = replace_clip e clip (record c' { clip_state = clip_final })
  ok (r.0, record no_updates { upd_wc = r.1 })

-- `case 0`: no incomplete call.
pub no_call : ℕ → Option GsmClipResult → ℕ → Call → Result (Call × Updates)
no_call ring clip timeout_ms c = do
  assert (not (is_set clip))
  assert (ring == 0)
  assert (timeout_ms == 0)
  c' ← clear_clip c
  ok (c', no_updates)

-- What `UpdateCallSetup` ends with: the new state and the notification of the client, if one is
-- made, or the state in which it asks for a disconnection, since the device has sent a callsetup
-- value that there is not.
pub data Outcome : Type 0 where
  updated : Call → Option Updates → Outcome
  violation : Call → Outcome

-- The statements behind the switch.
pub notify : Env → ℤ → Call × Updates → Outcome
notify e val (c, u) =
    let changed = not (val ==ℤ c.state_callsetup) in
    let u' = record u { upd_wc = u.upd_wc || changed } in
    updated (record c { state_callsetup = val })
      (if e.connected && (u'.upd_ac || u'.upd_wc || u'.do_ring) then some u' else none)

pub switch : Env → ℤ → ℕ → Option GsmClipResult → ℕ → Call → Result Outcome
switch e val ring clip timeout_ms c =
    if val ==ℤ pos 0
    then (no_call ring clip timeout_ms c >>= λ r. ok (notify e val r))
    else if val ==ℤ pos 1
    then (incoming e ring clip c >>= λ r. ok (notify e val r))
    else if val ==ℤ pos 2 || val ==ℤ pos 3
    then (outgoing e ring clip c >>= λ r. ok (notify e val r))
    else ok (violation c)

unfoldable pub update_call_setup : Env → ℤ → ℕ → Option GsmClipResult → ℕ → Call → Result Outcome
unfolding presume switch incoming outgoing no_call notify
update_call_setup e val ring clip timeout_ms c = do
  c' ← presume e val timeout_ms c
  switch e val ring clip timeout_ms c'

-- The presumption has run out.
unfoldable pub timeout : Env → Call → Result Outcome
timeout e c = do
  assert e.connected
  assert c.callsetup_presumed
  assert (not (c.state_callsetup ==ℤ pos 0))
  update_call_setup e (pos 0) 0 none 0 c

-- The caller's identification has not come in time.
unfoldable pub clip_timeout : Env → Call → Result Outcome
clip_timeout e c = do
  assert e.connected
  assert (is_waiting c.clip_state)
  update_call_setup e (pos 1) 1 none e.timeout_ring (record c { clip_state = clip_final })
