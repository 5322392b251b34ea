-- ===== src/CallSetup/Invariant.antt =====
-- The invariant of the call, callsetup and clip states, and what each step of `UpdateCallSetup` of
-- libhfp/hfp.cpp makes of it.
use nohands.Prelude.{ℕ, ◌≡◌, ◌≢◌, ◌⊎◌, true, Option, none, ℤ, pos, arith}
use nohands.Gsm.{GsmClipResult}
use nohands.CallSetup.{
  missing, is_armed, clip_unknown, clip_waiting, clip_final, Call, Env, Updates, Outcome, updated,
  violation, clear_clip, presume, incoming, outgoing, no_call, notify, is_set, is_waiting,
}
use nohands.Faults.Post.{Holds}

-- What is known of the caller, under a callsetup state: the clip timer runs exactly while a clip is
-- awaited, and then a call is coming in; a caller is known only in the final state; with no
-- incomplete call nothing is known.
pub record ClipInv (val : ℤ) (c : Call) : Type 0 where
  pub value_final : is_set c.clip_value ≡ true → c.clip_state ≡ clip_final
  pub waiting_armed : is_armed c.clip_timer ≡ is_waiting c.clip_state
  pub waiting_incoming : c.clip_state ≡ clip_waiting → val ≡ pos 1
  pub quiet : val ≡ pos 0 → c.clip_state ≡ clip_unknown
  pub timer_set_up : c.clip_timer ≢ missing

-- The callsetup timer runs exactly while the callsetup state is presumed, and then it is not 0.
pub record Inv (e : Env) (c : Call) : Type 0 where
  pub clip : ClipInv c.state_callsetup c
  pub presumed_armed : is_armed c.timer ≡ c.callsetup_presumed
  pub presumed_call : c.callsetup_presumed ≡ true → c.state_callsetup ≢ pos 0
  pub timer_set_up : e.connected ≡ true → c.timer ≢ missing

-- What is left of it when a timer has just gone off.
pub record Entry (e : Env) (c : Call) : Type 0 where
  pub clip : ClipInv c.state_callsetup c
  pub armed_presumed : is_armed c.timer ≡ true → c.callsetup_presumed ≡ true
  pub timer_set_up : e.connected ≡ true → c.timer ≢ missing

pub Inv-Entry : {e : Env} {c : Call} → Inv e c → Entry e c
Inv-Entry v = record {
  clip = v.clip;
  armed_presumed = λ a. ground arith;
  timer_set_up = v.timer_set_up;
}

-- The arguments that the callers pass.
pub record Legal (val : ℤ) (ring : ℕ) (clip : Option GsmClipResult) (timeout_ms : ℕ) : Type 0 where
  pub none_clip : val ≡ pos 0 → clip ≡ none
  pub none_ring : val ≢ pos 1 → ring ≡ 0
  pub none_timeout : val ≢ pos 1 → val ≢ pos 2 → val ≢ pos 3 → timeout_ms ≡ 0

-- Between the presumption and the end of `UpdateCallSetup`.
pub record Presumed (e : Env) (timeout_ms : ℕ) (c c' : Call) : Type 0 where
  pub armed_eq : is_armed c'.timer ≡ c'.callsetup_presumed
  pub only_timed : c'.callsetup_presumed ≡ true → timeout_ms ≢ 0
  pub timer_ne : e.connected ≡ true → c'.timer ≢ missing
  pub callsetup_eq : c'.state_callsetup ≡ c.state_callsetup
  pub clip_timer_eq : c'.clip_timer ≡ c.clip_timer
  pub clip_state_eq : c'.clip_state ≡ c.clip_state
  pub clip_value_eq : c'.clip_value ≡ c.clip_value

pub presume-Presumed :
    (e : Env) (val : ℤ) (timeout_ms : ℕ) (c : Call)
    → Entry e c
    → Holds (Presumed e timeout_ms c) (presume e val timeout_ms c)
unfolding presume
presume-Presumed e val timeout_ms c v = ground arith

-- The clip part of one case of the switch; the rest of the presumption stays as it was.
pub record Switched (val : ℤ) (c : Call) (r : Call × Updates) : Type 0 where
  pub clip_inv : ClipInv val r.0
  pub timer_eq : r.0.timer ≡ c.timer
  pub presumed_eq : r.0.callsetup_presumed ≡ c.callsetup_presumed

pub no_call-Switched :
    (c : Call) (old : ℤ) → ClipInv old c → Holds (Switched (pos 0) c) (no_call 0 none 0 c)
unfolding no_call clear_clip
no_call-Switched c old v = ground arith

pub outgoing-Switched :
    (e : Env) (val : ℤ) (clip : Option GsmClipResult) (c : Call)
    → (val ≡ pos 2) ⊎ (val ≡ pos 3)
    → ClipInv c.state_callsetup c
    → Holds (Switched val c) (outgoing e 0 clip c)
unfolding outgoing clear_clip
outgoing-Switched e val clip c h v = ground arith

pub incoming-Switched :
    (e : Env) (ring : ℕ) (clip : Option GsmClipResult) (c : Call)
    → ClipInv c.state_callsetup c
    → Holds (Switched (pos 1) c) (incoming e ring clip c)
unfolding incoming clear_clip
incoming-Switched e ring clip c v = ground arith

abbrev pub Kept : Env → Outcome → Type 0
Kept e (updated c u) = Inv e c
Kept e (violation c) = Inv e c

pub finish-Kept :
    (e : Env) (val : ℤ) (timeout_ms : ℕ) (c c' : Call) (r : Call × Updates)
    → (val ≡ pos 0 → timeout_ms ≡ 0)
    → Presumed e timeout_ms c c'
    → Switched val c' r
    → Kept e (notify e val r)
unfolding notify
finish-Kept e val timeout_ms c c' r z p s = ground arith

pub ClipInv-Presumed :
    (e : Env) (timeout_ms : ℕ) (c c' : Call)
    → ClipInv c.state_callsetup c
    → Presumed e timeout_ms c c'
    → ClipInv c'.state_callsetup c'
ClipInv-Presumed e timeout_ms c c' v p = ground arith
