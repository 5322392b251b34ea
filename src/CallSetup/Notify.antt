-- ===== src/CallSetup/Notify.antt =====
-- What the client is told of the call and callsetup states by `UpdateCallSetup` and `ClipTimeout`.
use nohands.Prelude.{ℕ, ◌≡◌, ◌≢◌, ◌↔◌, true, Option, none, some, ℤ, ==ℤ_iff, arith}
use nohands.Gsm.{GsmClipResult}
use nohands.Faults.{Result, ok, ◌>>=◌}
use nohands.CallSetup.{
  Call, Env, Updates, Outcome, updated, violation, clear_clip, presume, switch, incoming, outgoing,
  no_call, notify, update_call_setup,
}
use nohands.Faults.Post.{IfOk, Post-bind, Post-map, IfOk-at}

-- One case of the switch tells of each change of the call state, and leaves the callsetup state.
record CaseTells (c : Call) (r : Call × Updates) : Type 0 where
  ac_iff : (r.1.upd_ac ≡ true) ↔ (r.0.state_call ≢ c.state_call)
  callsetup_eq : r.0.state_callsetup ≡ c.state_callsetup

-- A connected client is told exactly of each change of the call state, and at least of each change
-- of the callsetup state; where it is told nothing, neither has changed.
abbrev pub Tells : Call → Call → Option Updates → Type 0
Tells c c' none = (c'.state_call ≡ c.state_call) × (c'.state_callsetup ≡ c.state_callsetup)
Tells c c' (some u) =
    ((u.upd_ac ≡ true) ↔ (c'.state_call ≢ c.state_call))
    × (c'.state_callsetup ≢ c.state_callsetup → u.upd_wc ≡ true)

abbrev pub OutcomeTells : Call → Outcome → Type 0
OutcomeTells c (updated c' n) = Tells c c' n
OutcomeTells c (violation c') =
    (c'.state_call ≡ c.state_call) × (c'.state_callsetup ≡ c.state_callsetup)

presume-CaseTells :
    (e : Env) (val : ℤ) (timeout_ms : ℕ) (c : Call)
    → IfOk
        (λ c'. (c'.state_call ≡ c.state_call) × (c'.state_callsetup ≡ c.state_callsetup))
        (presume e val timeout_ms c)
unfolding presume
presume-CaseTells e val timeout_ms c = ground arith

no_call-CaseTells :
    (ring : ℕ) (clip : Option GsmClipResult) (timeout_ms : ℕ) (c : Call)
    → IfOk (CaseTells c) (no_call ring clip timeout_ms c)
unfolding no_call clear_clip
no_call-CaseTells ring clip timeout_ms c = ground arith

outgoing-CaseTells :
    (e : Env) (ring : ℕ) (clip : Option GsmClipResult) (c : Call)
    → IfOk (CaseTells c) (outgoing e ring clip c)
unfolding outgoing clear_clip
outgoing-CaseTells e ring clip c = ground arith

incoming-CaseTells :
    (e : Env) (ring : ℕ) (clip : Option GsmClipResult) (c : Call)
    → IfOk (CaseTells c) (incoming e ring clip c)
unfolding incoming clear_clip
incoming-CaseTells e ring clip c = ground arith

notify-OutcomeTells :
    (e : Env) (val : ℤ) (c c' : Call) (r : Call × Updates)
    → e.connected ≡ true
    → (c'.state_call ≡ c.state_call) × (c'.state_callsetup ≡ c.state_callsetup)
    → CaseTells c' r
    → OutcomeTells c (notify e val r)
unfolding notify
notify-OutcomeTells e val c c' r h s t = ground (arith, ==ℤ_iff val c'.state_callsetup)

tells_map :
    (e : Env) (val : ℤ) (c c' : Call)
    → e.connected ≡ true
    → (c'.state_call ≡ c.state_call) × (c'.state_callsetup ≡ c.state_callsetup)
    → (m : Result (Call × Updates)) → IfOk (CaseTells c') m
    → IfOk (OutcomeTells c) (m >>= λ r. ok (notify e val r))
tells_map e val c c' h s m t =
    Post-map (Unit {0}) (CaseTells c') (OutcomeTells c) m (notify e val) t
      (λ r. notify-OutcomeTells e val c c' r h s)

switch-OutcomeTells :
    (e : Env) (val : ℤ) (ring : ℕ) (clip : Option GsmClipResult) (timeout_ms : ℕ) (c c' : Call)
    → e.connected ≡ true
    → (c'.state_call ≡ c.state_call) × (c'.state_callsetup ≡ c.state_callsetup)
    → IfOk (OutcomeTells c) (switch e val ring clip timeout_ms c')
unfolding switch
switch-OutcomeTells e val ring clip timeout_ms c c' h s = ground (
  arith,
  tells_map e val c c' h s (no_call ring clip timeout_ms c')
      (no_call-CaseTells ring clip timeout_ms c'),
  tells_map e val c c' h s (incoming e ring clip c') (incoming-CaseTells e ring clip c'),
  tells_map e val c c' h s (outgoing e ring clip c') (outgoing-CaseTells e ring clip c'),
)

update_call_setup-OutcomeTells :
    (e : Env) (val : ℤ) (ring : ℕ) (clip : Option GsmClipResult) (timeout_ms : ℕ) (c : Call)
    → e.connected ≡ true
    → IfOk (OutcomeTells c) (update_call_setup e val ring clip timeout_ms c)
unfolding update_call_setup
update_call_setup-OutcomeTells e val ring clip timeout_ms c h =
    Post-bind (Unit {0})
      (λ c'. (c'.state_call ≡ c.state_call) × (c'.state_callsetup ≡ c.state_callsetup))
      (OutcomeTells c) (presume e val timeout_ms c) (switch e val ring clip timeout_ms)
      (presume-CaseTells e val timeout_ms c)
      (λ c' s. switch-OutcomeTells e val ring clip timeout_ms c c' h s)

-- A connected client is told that the call state changed exactly if it did, and of each change of
-- the callsetup state; where it is told nothing, neither has changed.
pub update_call_setup-Tells :
    (e : Env) (val : ℤ) (ring : ℕ) (clip : Option GsmClipResult) (timeout_ms : ℕ) (c c' : Call)
    (n : Option Updates)
    → e.connected ≡ true
    → update_call_setup e val ring clip timeout_ms c ≡ ok (updated c' n)
    → Tells c c' n
update_call_setup-Tells e val ring clip timeout_ms c c' n h q =
    IfOk-at (OutcomeTells c) (update_call_setup e val ring clip timeout_ms c) (updated c' n)
      (update_call_setup-OutcomeTells e val ring clip timeout_ms c h) q
