-- ===== src/CallSetup/Ring.antt =====
-- When a ring is announced: `UpdateCallSetup` and `ClipTimeout` of libhfp/hfp.cpp announce it
-- together with the caller's identification, or after `m_timeout_clip`.
use nohands.Prelude.{ℕ, ◌≡◌, Bool, true, false, Option, none, some, pos, arith}
use nohands.Gsm.{GsmClipResult}
use nohands.CallSetup.{
  idle, armed, is_armed, clip_unknown, clip_waiting, clip_final, Call, Env, Updates, Outcome,
  updated, violation, clear_clip, update_call_setup, clip_timeout,
}
use nohands.CallSetup.Invariant.{Inv}
use nohands.Faults.Post.{Holds}

abbrev pub rung : Option Updates → Bool
rung none = false
rung (some u) = u.do_ring

-- The ring is held back, and the clip timer runs.
abbrev pub Waits : Env → Outcome → Type 0
Waits e (updated c n) =
    (rung n ≡ false) × (c.clip_state ≡ clip_waiting) × (c.clip_timer ≡ armed e.timeout_clip)
Waits e (violation c) = ⊥

-- The ring is announced with what is known of the caller, and the clip timer is off.
abbrev pub Rings : Option GsmClipResult → Outcome → Type 0
Rings clip (updated c n) =
    (rung n ≡ true)
    × (c.clip_state ≡ clip_final)
    × (c.clip_value ≡ clip)
    × (is_armed c.clip_timer ≡ false)
    × (c.state_callsetup ≡ pos 1)
Rings clip (violation c) = ⊥

-- On a connected session that keeps the invariant, where the audio gateway is to send +CLIP, a
-- RING while nothing is known of the caller: the ring is held back and the clip timer runs.
ring-Waits :
    (e : Env) (timeout_ms : ℕ) (c : Call)
    → e.connected ≡ true
    → e.clip_enabled ≡ true
    → Inv e c
    → c.clip_state ≡ clip_unknown
    → Holds (Waits e) (update_call_setup e (pos 1) 1 none timeout_ms c)
unfolding update_call_setup clear_clip
ring-Waits e timeout_ms c h k v q = ground arith

-- The +CLIP that was waited for, on a connected session that keeps the invariant and with memory
-- for its copy: the ring is announced together with the caller, and the clip timer is off.
pub clip-Rings :
    (e : Env) (timeout_ms : ℕ) (clip : GsmClipResult) (c : Call)
    → e.connected ≡ true
    → e.memory_left ≡ true
    → Inv e c
    → c.clip_state ≡ clip_waiting
    → Holds (Rings (some clip)) (update_call_setup e (pos 1) 0 (some clip) timeout_ms c)
unfolding update_call_setup clear_clip
clip-Rings e timeout_ms clip c h k v q = ground arith

-- No +CLIP came in time, on a connected session that keeps the invariant: the ring is announced
-- with the caller unknown, and the clip timer is off.
clip_timeout-Rings :
    (e : Env) (c : Call)
    → e.connected ≡ true
    → is_armed c.clip_timer ≡ true
    → Inv e c
    → Holds (Rings none) (clip_timeout e (record c { clip_timer = idle }))
unfolding clip_timeout update_call_setup clear_clip
clip_timeout-Rings e c h a v = ground arith
