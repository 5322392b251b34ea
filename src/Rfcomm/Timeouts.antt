-- ===== src/Rfcomm/Timeouts.antt =====
-- The two timers of RfcommService in libhfp/rfcomm.cpp and the sessions that wait for their phone.
use nohands.Prelude.{
  ℕ, ◌<◌, ◌≡◌, ◌⊎◌, refl, ap, ◌∙◌, inl, inr, true, false, List, [], ◌∷◌, Bool-cases, is_empty,
  length, arith,
}
use nohands.Faults.{◌>>=◌}
use nohands.Faults.Post.{Holds, Post-bind}
use nohands.Rfcomm.{RfcommSession, Service, is_rfc_disconnected}
use nohands.Rfcomm.Reconnect.{member}
use nohands.Rfcomm.Requests.{Dials, retry_all, set_again, auto_reconnect_timeout}
use nohands.Rfcomm.Frame.{count, count-member}
use nohands.Rfcomm.Invariant.{Inv, waits}
use nohands.Rfcomm.Retries.{
  Settled, Retried, retry_all-Retried, now_moved, later_moved, now_moved-Inv, later_moved-Inv,
}
use nohands.Rfcomm.Serve.{Reach}
use nohands.Rfcomm.Safe.{Reach-Settled}
use nohands.Rfcomm.Redials.{Looking, Due, Holds-both, retry_all-Looking, set_again-Looking}

member_some : (i : ℕ) (js : List ℕ) → member i js ≡ true → is_empty js ≡ false
member_some i [] h = cc
member_some i (j ∷ js) h = refl

now_member : (i : ℕ) (js : List ℕ) → count i js ≡ 1 → member i js ≡ true
now_member i js h = elim (Bool-cases (member i js)) [
  | inl m ↦ m
  | inr m ↦ absurd (omega (arith, count-member i js m))
]

waiting_one :
    (s : RfcommSession) → s.autoreconnect ≡ true → is_rfc_disconnected s.state ≡ true → waits s ≡ 1
waiting_one s a d = ground arith

-- A session that waits is on a list whose timer runs.
abbrev Remembered : ℕ → Service → Type 0
Remembered i w =
    ((member i w.list ≡ true) × (w.list_set ≡ true))
    ⊎ ((member i w.now_list ≡ true) × (w.now_set ≡ true))

-- A session that is to be connected automatically and is disconnected is on a list whose timer is set.
remembered :
    (held : ℕ → ℕ) (i : ℕ) (w : Service)
    → Settled held w
    → w.timer ≡ true
    → (w.sessions i).autoreconnect ≡ true
    → is_rfc_disconnected (w.sessions i).state ≡ true
    → Remembered i w
remembered held i w h t a d = elim (Bool-cases (member i w.list)) [
  | inl m ↦ inl (m, ground (arith, (h.inv.flags).1, member_some i w.list m))
  | inr m ↦
      let n : member i w.now_list ≡ true = now_member i w.now_list (
        omega (
          arith,
          count-member i w.list m,
          ap (count i) h.retry_empty,
          (h.inv.every i).2,
          waiting_one (w.sessions i) a d,
        )) in
      inr (n, ground (arith, (h.inv.flags).0, h.inv.paired, member_some i w.now_list n))
]

at_least_one : (i : ℕ) (js : List ℕ) → member i js ≡ true → 0 < count i js
at_least_one i [] h = cc
at_least_one i (j ∷ js) h = ground (arith, at_least_one i js)

module _ (held : ℕ → ℕ) (dials : Dials) (i : ℕ) (granted : dials i ≡ (true, true)) where
  tried_again :
      (w : Service)
      → Inv held false w
      → w.timer ≡ true
      → Due i w
      → Holds (Looking i) (retry_all dials (length w.retry) w >>= set_again)
  tried_again w h t d =
      Post-bind ⊥ _ (Looking i) (retry_all dials (length w.retry) w) set_again
        (Holds-both (Retried held w) (Looking i) _
          (retry_all-Retried held dials (length w.retry) w h (omega arith))
          (retry_all-Looking held dials i granted (length w.retry) w h (omega arith) d))
        (λ w' r. set_again-Looking held dials i granted w' (((r.0).0).timer_kept ∙ t) (r.1))

  later_timeout :
      (w : Service)
      → Settled held w
      → w.timer ≡ true
      → (member i w.list ≡ true) × (w.list_set ≡ true)
      → Holds (Looking i) (auto_reconnect_timeout false dials w)
  unfolding auto_reconnect_timeout
  later_timeout w h t m =
      rw (m.1) (
        tried_again (later_moved w) (later_moved-Inv held w h) t
          (inl (at_least_one i w.list (m.0))))

  now_timeout :
      (w : Service)
      → Settled held w
      → w.timer ≡ true
      → (member i w.now_list ≡ true) × (w.now_set ≡ true)
      → Holds (Looking i) (auto_reconnect_timeout true dials w)
  unfolding auto_reconnect_timeout
  now_timeout w h t m =
      rw (m.1) (
        tried_again (now_moved w) (now_moved-Inv held w h) t
          (inl (at_least_one i w.now_list (m.0))))

-- However a service has come, from one whose sessions keep the invariant, to a state in which it
-- is started and a session is to be connected automatically and is disconnected: the timer of one
-- of the two lists goes off without a fault, whatever the other sessions' attempts meet, and its
-- AutoReconnectTimeout leaves that session looking for its channel, if a timer can be created and
-- the lookup submitted for it.
pub never_forgotten :
    (held : ℕ → ℕ) (dials : Dials) (i : ℕ) {w w' : Service}
    → Settled held w
    → Reach w w'
    → w'.timer ≡ true
    → (w'.sessions i).autoreconnect ≡ true
    → is_rfc_disconnected (w'.sessions i).state ≡ true
    → dials i ≡ (true, true)
    → Holds (Looking i) (auto_reconnect_timeout false dials w')
      ⊎ Holds (Looking i) (auto_reconnect_timeout true dials w')
never_forgotten held dials i {w} {w'} h path t a d g =
    let k = Reach-Settled held h path in
    elim (remembered held i w' k t a d) [
      | inl m ↦ inl (later_timeout held dials i g w' k t m)
      | inr m ↦ inr (now_timeout held dials i g w' k t m)
    ]
