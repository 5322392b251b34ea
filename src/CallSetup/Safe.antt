-- ===== src/CallSetup/Safe.antt =====
-- No assertion of `UpdateCallSetup`, `Timeout` and `ClipTimeout` of libhfp/hfp.cpp fails, and each of
-- them keeps the invariant.
use nohands.Prelude.{
  ℕ, zero, suc, ◌≡◌, ◌≢◌, ◌⊎◌, inl, inr, refl, true, Option, none, ℤ, pos, negsuc, ==ℤ_iff, arith,
}
use nohands.Gsm.{GsmClipResult}
use nohands.CallSetup.{
  idle, is_armed, clip_final, Call, Env, switch, update_call_setup, timeout, clip_timeout,
}
use nohands.Faults.Post.{Holds, Post-bind, Post-map}
use nohands.CallSetup.Invariant.{
  ClipInv, Inv, Entry, Inv-Entry, Legal, Presumed, presume-Presumed, no_call-Switched,
  outgoing-Switched, incoming-Switched, Kept, finish-Kept, ClipInv-Presumed,
}

-- The branches of the switch, and the rest.
data Callsetup (val : ℤ) : Type 0 where
  is_none : val ≡ pos 0 → Callsetup val
  is_incoming : val ≡ pos 1 → Callsetup val
  is_outgoing : (val ≡ pos 2) ⊎ (val ≡ pos 3) → Callsetup val
  is_unknown : val ≢ pos 0 → val ≢ pos 1 → val ≢ pos 2 → val ≢ pos 3 → Callsetup val

Callsetup-of : (val : ℤ) → Callsetup val
Callsetup-of (pos zero) = is_none refl
Callsetup-of (pos (suc zero)) = is_incoming refl
Callsetup-of (pos (suc (suc zero))) = is_outgoing (inl refl)
Callsetup-of (pos (suc (suc (suc zero)))) = is_outgoing (inr refl)
Callsetup-of (pos (suc (suc (suc (suc n))))) =
    is_unknown (ground arith) (ground arith) (ground arith) (ground arith)
Callsetup-of (negsuc n) = is_unknown (λ e. cc) (λ e. cc) (λ e. cc) (λ e. cc)

module _ (e : Env) (ring : ℕ) (clip : Option GsmClipResult) (timeout_ms : ℕ) {c c' : Call}
    (v : ClipInv c'.state_callsetup c') (p : Presumed e timeout_ms c c') where
  switch-none :
      timeout_ms ≡ 0
      → ring ≡ 0
      → clip ≡ none
      → Holds (Kept e) (switch e (pos 0) ring clip timeout_ms c')
  unfolding switch
  switch-none z r n =
      rw (z, r, n)
        (Post-map ⊥ _ _ _ _ (no_call-Switched c' c'.state_callsetup v)
          (λ o. finish-Kept e (pos 0) timeout_ms c c' o (λ _. z) p))

  switch_incoming : Holds (Kept e) (switch e (pos 1) ring clip timeout_ms c')
  unfolding switch
  switch_incoming =
      Post-map ⊥ _ _ _ _ (incoming-Switched e ring clip c' v)
        (λ r. finish-Kept e (pos 1) timeout_ms c c' r (λ z. cc) p)

  switch_outgoing :
      (val : ℤ)
      → ring ≡ 0
      → (val ≡ pos 2) ⊎ (val ≡ pos 3)
      → Holds (Kept e) (switch e val ring clip timeout_ms c')
  unfolding switch
  switch_outgoing val r (inl h) =
      rw (r, h)
        (Post-map ⊥ _ _ _ _ (outgoing-Switched e (pos 2) clip c' (inl refl) v)
          (λ o. finish-Kept e (pos 2) timeout_ms c c' o (λ z. cc) p))
  switch_outgoing val r (inr h) =
      rw (r, h)
        (Post-map ⊥ _ _ _ _ (outgoing-Switched e (pos 3) clip c' (inr refl) v)
          (λ o. finish-Kept e (pos 3) timeout_ms c c' o (λ z. cc) p))

  switch_unknown :
      (val : ℤ)
      → val ≢ pos 0
      → val ≢ pos 1
      → val ≢ pos 2
      → val ≢ pos 3
      → timeout_ms ≡ 0
      → Holds (Kept e) (switch e val ring clip timeout_ms c')
  unfolding switch
  switch_unknown val n0 n1 n2 n3 z =
      ground
        (arith, ==ℤ_iff val (pos 0), ==ℤ_iff val (pos 1), ==ℤ_iff val (pos 2), ==ℤ_iff val (pos 3))

switch-Kept :
    (e : Env) (val : ℤ) (ring : ℕ) (clip : Option GsmClipResult) (timeout_ms : ℕ) (c c' : Call)
    → Legal val ring clip timeout_ms
    → ClipInv c'.state_callsetup c'
    → Presumed e timeout_ms c c'
    → Holds (Kept e) (switch e val ring clip timeout_ms c')
switch-Kept e val ring clip timeout_ms c c' l v p = elim (Callsetup-of val) [
  | is_none h ↦ rw h (
      switch-none e ring clip timeout_ms v p
        (l.none_timeout (λ q. ground arith) (λ q. ground arith) (λ q. ground arith))
        (l.none_ring (λ q. ground arith)) (l.none_clip h))
  | is_incoming h ↦ rw h (switch_incoming e ring clip timeout_ms v p)
  | is_outgoing h ↦
      switch_outgoing e ring clip timeout_ms v p val (l.none_ring (λ q. ground arith)) h
  | is_unknown n0 n1 n2 n3 ↦
      switch_unknown e ring clip timeout_ms v p val n0 n1 n2 n3 (l.none_timeout n1 n2 n3)
]

pub update_call_setup-Entry :
    (e : Env) (val : ℤ) (ring : ℕ) (clip : Option GsmClipResult) (timeout_ms : ℕ) (c : Call)
    → Legal val ring clip timeout_ms
    → Entry e c
    → Holds (Kept e) (update_call_setup e val ring clip timeout_ms c)
unfolding update_call_setup
update_call_setup-Entry e val ring clip timeout_ms c l v =
    Post-bind ⊥ (Presumed e timeout_ms c) (Kept e) _ _ (presume-Presumed e val timeout_ms c v)
      (λ c' p.
        switch-Kept e val ring clip timeout_ms c c' l (ClipInv-Presumed e timeout_ms c c' v.clip p)
          p)

-- From a state that keeps the invariant, with the arguments that its callers pass, UpdateCallSetup
-- meets no failed assertion and no null timer, keeps the invariant, and leaves it standing where
-- it gives up on an unknown value.
pub update_call_setup-Kept :
    (e : Env) (val : ℤ) (ring : ℕ) (clip : Option GsmClipResult) (timeout_ms : ℕ) (c : Call)
    → Legal val ring clip timeout_ms
    → Inv e c
    → Holds (Kept e) (update_call_setup e val ring clip timeout_ms c)
update_call_setup-Kept e val ring clip timeout_ms c l v =
    update_call_setup-Entry e val ring clip timeout_ms c l (Inv-Entry v)

Legal-incoming : (ring timeout_ms : ℕ) → Legal (pos 1) ring none timeout_ms
Legal-incoming ring timeout_ms = record {
  none_clip = λ h. refl;
  none_ring = λ h. absurd (h refl);
  none_timeout = λ h. absurd (h refl);
}

pub Legal-none : Legal (pos 0) 0 none 0
Legal-none = record { none_clip = λ h. refl; none_ring = λ h. refl; none_timeout = λ h k l. refl }

-- A timer that goes off is no longer set.
fired-Entry :
    (e : Env) (c : Call) → is_armed c.timer ≡ true → Inv e c → Entry e (record c { timer = idle })
fired-Entry e c a v = ground arith

clip_fired-Entry :
    (e : Env) (c : Call)
    → is_armed c.clip_timer ≡ true
    → Inv e c
    → Entry e (record c { clip_timer = idle; clip_state = clip_final })
clip_fired-Entry e c a v = ground arith

-- The callsetup timer goes off on a connected session that keeps the invariant: Timeout finds what
-- it asserts, and the invariant is kept.
pub timeout-Kept :
    (e : Env) (c : Call)
    → e.connected ≡ true
    → is_armed c.timer ≡ true
    → Inv e c
    → Holds (Kept e) (timeout e (record c { timer = idle }))
unfolding timeout
timeout-Kept e c h a v = ground (
  arith,
  v.presumed_call,
  update_call_setup-Entry e (pos 0) 0 none 0 (record c { timer = idle }) Legal-none
      (fired-Entry e c a v),
)

-- The clip timer goes off on a connected session that keeps the invariant: ClipTimeout finds what
-- it asserts, and the invariant is kept.
clip_timeout-Kept :
    (e : Env) (c : Call)
    → e.connected ≡ true
    → is_armed c.clip_timer ≡ true
    → Inv e c
    → Holds (Kept e) (clip_timeout e (record c { clip_timer = idle }))
unfolding clip_timeout
clip_timeout-Kept e c h a v = ground (
  arith,
  update_call_setup-Entry e (pos 1) 1 none e.timeout_ring
      (record c { clip_timer = idle; clip_state = clip_final }) (Legal-incoming 1 e.timeout_ring)
      (clip_fired-Entry e c a v),
)
