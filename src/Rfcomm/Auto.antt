-- ===== src/Rfcomm/Auto.antt =====
-- SetAutoReconnect keeps the invariant.
use nohands.Prelude.{
  ℕ, ◌+◌, ◌≡◌, refl, ap, ◌∙◌, inl, inr, Bool, true, false, if◌then◌else◌, Bool-cases, arith,
}
use nohands.Faults.{ok, ◌>>=◌}
use nohands.Faults.Post.{Holds, Post-bind, Post-if, Post-weaken}
use nohands.Rfcomm.{
  State, rfc_disconnected, rfc_sdp_lookup_channel, rfc_connecting, rfc_connected, RfcommSession,
  Service, put, is_rfc_disconnected, get_ref,
}
use nohands.Rfcomm.Reconnect.{add_auto_reconnect, remove_auto_reconnect}
use nohands.Rfcomm.Connect.{release}
use nohands.Rfcomm.Requests.{set_auto_reconnect}
use nohands.Rfcomm.Frame.{on_lists, Frame-refl, put-get, Leads, remove-Leads, add-Leads}
use nohands.Rfcomm.Invariant.{Shape, SessionOk, Leads-eq, Leads-trans, put-Leads}
use nohands.Rfcomm.Keeps.{Kept, Kept-since, Leads-Kept}
use nohands.Rfcomm.Ends.{put-Kept, release-Kept}

Shape-auto :
    (st : State) (s : RfcommSession) (n : ℕ) (b : Bool)
    → Shape st s
    → Shape st (record s { refs = n; autoreconnect = b })
Shape-auto rfc_disconnected s n b h = h
Shape-auto rfc_sdp_lookup_channel s n b h = h
Shape-auto rfc_connecting s n b h = h
Shape-auto rfc_connected s n b h = h

abbrev enabled : RfcommSession → RfcommSession
enabled s = record (get_ref s) { autoreconnect = true }

abbrev disabled : RfcommSession → RfcommSession
disabled s = record s { autoreconnect = false }

-- Another session in the place of `i`, after which an operation leads to `n` places on the lists.
after_put :
    (held i : ℕ) (w w' : Service) (s : RfcommSession) (n : ℕ)
    → SessionOk held s n
    → Leads i (put i s w) ((put i s w).sessions i) n w'
    → Kept held i w w'
after_put held i w w' s n k l =
    let w1 = put i s w in
    Leads-Kept held i w w' s n k (
      Leads-trans i w w1 w' s s (on_lists i w) n (put-Leads i s w)
        (Leads-eq i w1 w' (w1.sessions i) s n n (put-get i s w) refl l))

module _ (held i : ℕ) (w : Service) (k : SessionOk held (w.sessions i) (on_lists i w)) where
  abbrev session : RfcommSession
  session = w.sessions i

  enabling :
      session.autoreconnect ≡ false
      → Holds (Kept held i w) (
          if is_rfc_disconnected session.state
          then add_auto_reconnect true i (put i (enabled session) w)
          else ok (put i (enabled session) w))
  enabling a =
      let s = enabled session in
      let w1 = put i s w in
      let n : on_lists i w ≡ 0 = ground (arith, k.2) in
      Post-if ⊥ (Kept held i w) (is_rfc_disconnected session.state) (add_auto_reconnect true i w1)
        (ok w1)
        (λ d.
          Post-weaken ⊥ (Leads i w1 (w1.sessions i) 1) (Kept held i w)
            (add_auto_reconnect true i w1)
            (λ w' l.
              after_put held i w w' s 1
                (
                  Shape-auto session.state session (session.refs + 1) true (k.0),
                  ground (arith, k.1, a),
                  ground (arith, d),
                )
                l)
            (add-Leads i w1 true n
              (ap (λ (t : RfcommSession). is_rfc_disconnected t.state) (put-get i s w) ∙ d)))
        (λ d. put-Kept held i w s (
          Shape-auto session.state session (session.refs + 1) true (k.0),
          ground (arith, k.1, a),
          ground (arith, d),
        ))

  disabling :
      session.autoreconnect ≡ true
      → Holds (Kept held i w) (
          (if is_rfc_disconnected session.state
            then remove_auto_reconnect i (put i (disabled session) w)
            else ok (put i (disabled session) w))
          >>= λ w2. release i w2)
  disabling a =
      let s = disabled session in
      let w1 = put i s w in
      Post-bind ⊥ (Kept (held + 1) i w) (Kept held i w) _ _
        (Post-if ⊥ (Kept (held + 1) i w) (is_rfc_disconnected session.state)
          (remove_auto_reconnect i w1) (ok w1)
          (λ d.
            Post-weaken ⊥ (Leads i w1 (w1.sessions i) 0) (Kept (held + 1) i w)
              (remove_auto_reconnect i w1)
              (λ w' l.
                after_put (held + 1) i w w' s 0
                  (
                    Shape-auto session.state session session.refs false (k.0),
                    ground (arith, k.1, a),
                    refl,
                  )
                  l)
              (remove-Leads i w1 (ground (arith, k.2, a, d))))
          (λ d. put-Kept (held + 1) i w s (
            Shape-auto session.state session session.refs false (k.0),
            ground (arith, k.1, a),
            ground (arith, k.2, a, d),
          )))
        (λ w2 j.
          Post-weaken ⊥ (Kept held i w2) (Kept held i w) (release i w2)
            (λ w3 l. Kept-since held i w w2 w3 (j.0) l) (release-Kept held i w2 (j.1)))

  as_set : (b : Bool) → session.autoreconnect ≡ b → set_auto_reconnect b i w ≡ ok w
  unfolding set_auto_reconnect
  as_set true a = rw a refl
  as_set false a = rw a refl

  pub set_auto_reconnect-Kept :
      (enable : Bool) → Holds (Kept held i w) (set_auto_reconnect enable i w)
  unfolding set_auto_reconnect
  set_auto_reconnect-Kept true = elim (Bool-cases session.autoreconnect) [
    | inl a ↦ rw (as_set true a) (Frame-refl i w, k)
    | inr a ↦ simp a (enabling a)
  ]
  set_auto_reconnect-Kept false = elim (Bool-cases session.autoreconnect) [
    | inl a ↦ simp a (disabling a)
    | inr a ↦ rw (as_set false a) (Frame-refl i w, k)
  ]
