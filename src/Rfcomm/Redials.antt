-- ===== src/Rfcomm/Redials.antt =====
-- AutoReconnectTimeout of libhfp/rfcomm.cpp looks up the sessions that wait for their phone.
use mathlib.Core.Path.{subst}
use nohands.Prelude.{
  ℕ, zero, suc, ◌≤◌, ◌<◌, ◌≡◌, ◌≢◌, ◌⊎◌, refl, ap, sym, ◌∙◌, inl, inr, Bool, true, false, not, ◌&&◌,
  List, [], ◌∷◌, ◌==◌, if◌then◌else◌, List-cases, Bool-cases, is_empty, length, arith,
}
use nohands.Faults.{null_pointer, Result, fault, ok}
use nohands.Faults.Post.{Holds, Post-bind, Post-map, Post-if, Post-weaken}
use nohands.Session.{rfcomm_connecting}
use nohands.Rfcomm.{RfcommSession, Service, put, is_rfc_disconnected, is_rfc_sdp}
use nohands.Rfcomm.Reconnect.{remove_auto_reconnect}
use nohands.Rfcomm.Requests.{
  sdp_lookup, rfcomm_sdp_lookup_channel, unless_looked, lookup_connect, rfcomm_lookup_connect,
  unless_connecting, connect, auto_reconnect, Dials, retry_all, set_again,
}
use nohands.Rfcomm.Frame.{count, on_lists, Frame, put-get}
use nohands.Rfcomm.Invariant.{one_if, Inv, Inv-Frame}
use nohands.Rfcomm.Keeps.{Kept}
use nohands.Rfcomm.Opens.{Idle, Idle-of, left_list, looking}
use nohands.Rfcomm.Retries.{
  auto_reconnect-Kept, delayed, delayed-Inv, delayed_listed, retry_none, retry_first, waits_idle,
}

-- The channel of session `i` is looked up.
abbrev pub Looking : ℕ → Service → Type 0
Looking i w = (is_rfc_sdp (w.sessions i).state ≡ true) × ((w.sessions i).sdp_task ≡ true)

Looking-same : (i : ℕ) (w w' : Service) → w'.sessions i ≡ w.sessions i → Looking i w → Looking i w'
Looking-same i w w' e h = rw e h

abbrev Looks : ℕ → Service × Bool → Type 0
Looks i (w, done) = (done ≡ true) × Looking i w

sdp_lookup-Looks :
    (i : ℕ) (w : Service) (s : RfcommSession)
    → is_rfc_disconnected s.state ≡ true
    → on_lists i w ≡ one_if s.autoreconnect
    → Holds (Looks i) (sdp_lookup true i s w)
unfolding sdp_lookup
sdp_lookup-Looks i w s d n =
    let w1 = put i (looking s) w in
    rw d (
      Post-map ⊥ _ (Looks i) (if s.autoreconnect then remove_auto_reconnect i w1 else ok w1)
        (λ w2. (w2, true)) (left_list s.autoreconnect i w1 n)
        (λ w2 l.
          let e : w2.sessions i ≡ looking s = l.session ∙ put-get i (looking s) w in
          (refl, rw e (refl, refl))))

unless_looked-Looks : (i : ℕ) (r : Service × Bool) → Looks i r → Looks i (unless_looked i r)
unless_looked-Looks i (w, true) h = h
unless_looked-Looks i (w, false) h = cc

unless_connecting-Looks :
    (i : ℕ) (r : Service × Bool) → Looks i r → Looking i (unless_connecting i r).0
unless_connecting-Looks i (w, true) h = h.1
unless_connecting-Looks i (w, false) h = cc

lookup_connect-Looks :
    (i : ℕ) (w : Service) (s : RfcommSession)
    → is_rfc_disconnected s.state ≡ true
    → s.operation_timeout ≡ false
    → on_lists i w ≡ one_if s.autoreconnect
    → Holds (Looks i) (lookup_connect true true i s w)
unfolding lookup_connect
lookup_connect-Looks i w s d t n =
    let s' = record s { operation_timeout = true } in
    let w' = put i s' w in
    simp (t, d)
      (Post-map ⊥ (Looks i) (Looks i) (rfcomm_sdp_lookup_channel true i w') (λ r. unless_looked i r)
        (subst (λ x. Holds (Looks i) (sdp_lookup true i x w')) (sym (put-get i s' w))
          (sdp_lookup-Looks i w' s' d n))
        (unless_looked-Looks i))

-- A session that waits is looked up, if the lookup can be submitted.
auto_reconnect-Looking :
    (held : ℕ) (i : ℕ) (w : Service)
    → Idle held (w.sessions i) (on_lists i w)
    → Holds (Looking i) (auto_reconnect true true i w)
unfolding auto_reconnect connect
auto_reconnect-Looking held i w h =
    let s' = record (w.sessions i) { conn_state = rfcomm_connecting } in
    let w' = put i s' w in
    rw ((h.shape).4) (
      Post-map ⊥ (λ r. Looking i r.0) (Looking i) _ (λ r. r.0)
        (Post-map ⊥ (Looks i) (λ r. Looking i r.0) (rfcomm_lookup_connect true true i w')
          (λ r. unless_connecting i r)
          (subst (λ x. Holds (Looks i) (lookup_connect true true i x w')) (sym (put-get i s' w))
            (lookup_connect-Looks i w' s' h.state ((h.shape).3) h.place))
          (unless_connecting-Looks i))
        (λ r k. k))

pub Holds-both {ℓ} :
    {A : Type ℓ} (P Q : A → Type 0) (m : Result A)
    → Holds P m
    → Holds Q m
    → Holds (λ a. P a × Q a) m
Holds-both P Q (ok a) p q = (p, q)
Holds-both P Q (fault e) p q = p

-- The session is looked up, or its turn is still to come.
abbrev pub Due : ℕ → Service → Type 0
Due i w = (0 < count i w.retry) ⊎ Looking i w

-- Another session's turn.
others_turn :
    (i j : ℕ) (is : List ℕ) (w w' : Service)
    → j ≢ i
    → w.retry ≡ j ∷ is
    → Frame j (delayed j is w) w'
    → Due i w
    → Due i w'
others_turn i j is w w' n e f (inl p) = inl (ground (arith, f.retry_kept i n, ap (count i) e))
others_turn i j is w w' n e f (inr l) = inr (Looking-same i w w' (f.others i n) l)

module _ (held : ℕ → ℕ) (dials : Dials) (i : ℕ) (granted : dials i ≡ (true, true)) where
  abbrev Attempted : List ℕ → Service → ℕ → Type 0
  Attempted is w j =
      Holds (λ w'. Kept (held j) j (delayed j is w) w' × Due i w')
        (auto_reconnect (dials j).0 (dials j).1 j (delayed j is w))

  own_turn : (is : List ℕ) (w : Service) → Inv held false w → w.retry ≡ i ∷ is → Attempted is w i
  own_turn is w h e =
      let w1 = delayed i is w in
      let k = (delayed-Inv i is w e held h).every i in
      let p = delayed_listed i is w e in
      let s = w1.sessions i in
      let d = waits_idle s.autoreconnect (is_rfc_disconnected s.state) (on_lists i w1) (k.2) p in
      Holds-both (Kept (held i) i w1) (Due i) _
        (auto_reconnect-Kept (held i) (dials i).0 (dials i).1 i w1 k p)
        (rw granted (
          Post-weaken ⊥ (Looking i) (Due i) (auto_reconnect true true i w1) (λ w' l. inr l)
            (auto_reconnect-Looking (held i) i w1 (Idle-of (held i) s (on_lists i w1) k d))))

  turn_taken :
      (j : ℕ) (is : List ℕ) (w : Service)
      → Inv held false w
      → w.retry ≡ j ∷ is
      → Due i w
      → Attempted is w j
  turn_taken j is w h e d = elim (Bool-cases (j == i)) [
    | inl q ↦
        let same : j ≡ i = ground arith in
        subst (Attempted is w) (sym same) (own_turn is w h (e ∙ ap (λ k. k ∷ is) same))
    | inr q ↦
        let n : j ≢ i = ground arith in
        let w1 = delayed j is w in
        Post-weaken ⊥ _ _ (auto_reconnect (dials j).0 (dials j).1 j w1)
          (λ w' k. (k, others_turn i j is w w' n e (k.0) d))
          (auto_reconnect-Kept (held j) (dials j).0 (dials j).1 j w1
            ((delayed-Inv j is w e held h).every j) (delayed_listed j is w e))
  ]

  turn_over : (w : Service) → w.retry ≡ [] → Due i w → Looking i w
  turn_over w e (inl p) = absurd (omega (arith, ap (count i) e))
  turn_over w e (inr l) = l

  pub retry_all-Looking :
      (fuel : ℕ) (w : Service)
      → Inv held false w
      → length w.retry ≤ fuel
      → Due i w
      → Holds (Looking i) (retry_all dials fuel w)
  retry_all-Looking zero w h f d = elim (List-cases w.retry) [
    | inl e ↦ rw (retry_none dials zero w e) (turn_over w e d)
    | inr (j, is, e) ↦ absurd (omega (arith, ap length e))
  ]
  retry_all-Looking (suc fuel) w h f d = elim (List-cases w.retry) [
    | inl e ↦ rw (retry_none dials (suc fuel) w e) (turn_over w e d)
    | inr (j, is, e) ↦
        let w1 = delayed j is w in
        rw (retry_first dials fuel j is w e) (
          Post-bind ⊥ _ (Looking i) (auto_reconnect (dials j).0 (dials j).1 j w1) _
            (turn_taken j is w h e d)
            (λ w2 k.
              retry_all-Looking fuel w2
                (Inv-Frame held false j w1 w2 (delayed-Inv j is w e held h) ((k.0).0) ((k.0).1))
                (omega (arith, ((k.0).0).retry_le, ap length e)) (k.1)))
  ]

  -- The delayed timer exists by then.
  pub set_again-Looking :
      (w : Service) → w.timer ≡ true → Looking i w → Holds (Looking i) (set_again w)
  unfolding set_again
  set_again-Looking w t h =
      Post-if ⊥ (Looking i) (not (is_empty w.list) && not w.list_set) _ _
        (λ _.
          Post-if ⊥ (Looking i) w.timer (ok (record w { list_set = true })) (fault null_pointer)
            (λ _. h) (λ c. cc))
        (λ _. h)
