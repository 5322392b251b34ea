-- ===== src/Rfcomm/Ends.antt =====
-- A connection that ends, from any state, and an SDP lookup that ends.
use mathlib.Core.Path.{subst}
use nohands.Prelude.{
  ℕ, ◌+◌, ◌-◌, ◌≡◌, refl, sym, inl, inr, Bool, true, false, not, ◌&&◌, if◌then◌else◌, Bool-cases,
  arith,
}
use nohands.Faults.{ok, ◌>>=◌}
use nohands.Faults.Post.{Holds, Post-bind, Post-if, Post-weaken}
use nohands.Session.{disconnected}
use nohands.Rfcomm.{
  State, rfc_disconnected, rfc_sdp_lookup_channel, rfc_connecting, rfc_connected, RfcommSession,
  Service, put, is_rfc_disconnected, is_rfc_sdp, is_opening, get_ref,
}
use nohands.Rfcomm.Connect.{Answers, closes, disconnect, release, rfcomm_connect}
use nohands.Rfcomm.Requests.{rfcomm_sdp_lookup_channel_complete}
use nohands.Rfcomm.Frame.{on_lists, Frame-trans, put-Frame, put-get, Leads}
use nohands.Rfcomm.Invariant.{Shape, one_if, SessionOk, release-Leads}
use nohands.Rfcomm.Keeps.{Kept, Kept-since, Leads-Kept, RefsBusy, disconnect-Kept}
use nohands.Rfcomm.Dials.{Looked, Tried, rfcomm_connect-Tried}

closes_ok : (st : State) (s : RfcommSession) → Shape st s → closes (record s { state = st }) ≡ ok tt
closes_ok rfc_disconnected s h = ground arith
closes_ok rfc_sdp_lookup_channel s h = ground arith
closes_ok rfc_connecting s h = ground arith
closes_ok rfc_connected s h = ground arith

pub busy_refs :
    (held : ℕ) (s : RfcommSession) (d : Bool)
    → d ≡ false
    → s.refs ≡ held + one_if s.autoreconnect + one_if (not d)
    → RefsBusy held s
busy_refs held s d e h = subst (λ b. s.refs ≡ held + one_if s.autoreconnect + one_if (not b)) e h

pub busy_places : (b d : Bool) (n : ℕ) → d ≡ false → n ≡ one_if (b && d) → n ≡ 0
busy_places true d n e h = ground arith
busy_places false d n e h = h

idle-Shape :
    (st : State) (s : RfcommSession)
    → is_rfc_disconnected st ≡ true
    → Shape st s
    → Shape st (record s { conn_state = disconnected })
idle-Shape rfc_disconnected s d h = (h.0, h.1, h.2, h.3, refl)
idle-Shape rfc_sdp_lookup_channel s d h = cc
idle-Shape rfc_connecting s d h = cc
idle-Shape rfc_connected s d h = cc

nothing_to_close :
    (voluntary : Bool) (i : ℕ) (w : Service)
    → is_rfc_disconnected (w.sessions i).state ≡ true
    → disconnect voluntary i w ≡ ok (put i (record (w.sessions i) { conn_state = disconnected }) w)
unfolding disconnect
nothing_to_close voluntary i w d = rw d refl

pub put-Kept :
    (held i : ℕ) (w : Service) (s : RfcommSession)
    → SessionOk held s (on_lists i w)
    → Kept held i w (put i s w)
put-Kept held i w s k = (put-Frame i s w, rw (put-get i s w) k)

-- `__Disconnect`, in any state.
pub disconnect_any-Kept :
    (held : ℕ) (voluntary : Bool) (i : ℕ) (w : Service)
    → SessionOk held (w.sessions i) (on_lists i w)
    → Holds (Kept held i w) (disconnect voluntary i w)
disconnect_any-Kept held voluntary i w k =
    let s = w.sessions i in
    elim (Bool-cases (is_rfc_disconnected s.state)) [
      | inl d ↦ rw (nothing_to_close voluntary i w d) (
          put-Kept held i w (record s { conn_state = disconnected })
            (idle-Shape s.state s d (k.0), k.1, k.2))
      | inr d ↦
          disconnect-Kept held voluntary i w s refl d (closes_ok s.state s (k.0))
            (busy_refs held s (is_rfc_disconnected s.state) d (k.1))
            (busy_places s.autoreconnect (is_rfc_disconnected s.state) (on_lists i w) d (k.2))
    ]

Shape-refs :
    (st : State) (s : RfcommSession) (n : ℕ) → Shape st s → Shape st (record s { refs = n })
Shape-refs rfc_disconnected s n h = h
Shape-refs rfc_sdp_lookup_channel s n h = h
Shape-refs rfc_connecting s n h = h
Shape-refs rfc_connected s n h = h

-- A reference given up.
pub release-Kept :
    (held i : ℕ) (w : Service)
    → SessionOk (held + 1) (w.sessions i) (on_lists i w)
    → Holds (Kept held i w) (release i w)
release-Kept held i w k =
    let s = w.sessions i in
    let s' = record s { refs = s.refs - 1 } in
    Post-weaken ⊥ (Leads i w s' (on_lists i w)) _ (release i w)
      (λ w' l.
        Leads-Kept held i w w' s' (on_lists i w)
          (Shape-refs s.state s (s.refs - 1) (k.0), omega (arith, k.1), k.2) l)
      (release-Leads i w s (on_lists i w) refl refl (omega (arith, k.1)))

-- A session whose SDP lookup has ended in the state `s`, and that goes on to connect.
module _ (held : ℕ) (a : Answers) (i : ℕ) (w : Service) (s : RfcommSession) (e : w.sessions i ≡ s)
    (l : Looked held s) (n : on_lists i w ≡ 0) where
  abbrev again : Service → Service
  again w2 = put i (record (get_ref (w2.sessions i)) { state = rfc_sdp_lookup_channel }) w2

  closes_again :
      (t : RfcommSession)
      → t ≡ s
      → closes (record (get_ref t) { state = rfc_sdp_lookup_channel }) ≡ ok tt
  closes_again t h =
      subst (λ t. closes (record (get_ref t) { state = rfc_sdp_lookup_channel }) ≡ ok tt) (sym h)
        (ground (arith, l.sdp_task, l.no_notifier, l.no_sock))

  refs_again :
      (t : RfcommSession)
      → t ≡ s
      → RefsBusy (held + 1) (record (get_ref t) { state = rfc_sdp_lookup_channel })
  refs_again t h =
      subst (λ t. RefsBusy (held + 1) (record (get_ref t) { state = rfc_sdp_lookup_channel }))
        (sym h) (omega (arith, l.busy))

  Tried-Kept :
      (r : Service × Bool)
      → Tried held i w s r
      → Holds (Kept (held + 1) i w) (if r.1 then ok r.0 else disconnect false i (again r.0))
  Tried-Kept (w2, true) t = t
  Tried-Kept (w2, false) t =
      let s2 = record (get_ref (w2.sessions i)) { state = rfc_sdp_lookup_channel } in
      Post-weaken ⊥ _ _ (disconnect false i (again w2))
        (λ w3 k.
          Kept-since (held + 1) i w (again w2) w3
            (Frame-trans i w w2 (again w2) t.frame (put-Frame i s2 w2)) k)
        (disconnect-Kept (held + 1) false i (again w2) s2 (put-get i s2 w2) refl
          (closes_again (w2.sessions i) t.session) (refs_again (w2.sessions i) t.session) t.places)

-- RfcommSdpLookupChannelComplete.
lookup_fields :
    (st : State) (s : RfcommSession)
    → is_rfc_sdp st ≡ true
    → Shape st s
    → (s.sdp_task ≡ true)
      × (s.sock ≡ false)
      × (s.notifier ≡ false)
      × (is_opening s.conn_state ≡ true)
      × (is_rfc_disconnected st ≡ false)
lookup_fields rfc_disconnected s d h = cc
lookup_fields rfc_sdp_lookup_channel s d h = (h.0, h.1, h.2, h.4, refl)
lookup_fields rfc_connecting s d h = cc
lookup_fields rfc_connected s d h = cc

abbrev looked_up : RfcommSession → RfcommSession
looked_up s = record s { operation_timeout = false; inbound = false; sdp_task = false }

rest_of_lookup-Kept :
    (held : ℕ) (a : Answers) (i : ℕ) (w : Service) (s : RfcommSession)
    → w.sessions i ≡ s
    → Looked held s
    → on_lists i w ≡ 0
    → Holds (Kept held i w) (
        rfcomm_connect a i w >>= λ r.
        (if r.1
          then ok r.0
          else disconnect false i
              (put i (record (get_ref (r.0.sessions i)) { state = rfc_sdp_lookup_channel }) r.0))
        >>= λ w3. release i w3)
rest_of_lookup-Kept held a i w s e l n =
    Post-bind ⊥ (Tried held i w s) (Kept held i w) (rfcomm_connect a i w) _
      (rfcomm_connect-Tried held a i w s e l n)
      (λ r t.
        Post-bind ⊥ (Kept (held + 1) i w) (Kept held i w) _ _ (Tried-Kept held a i w s e l n r t)
          (λ w3 k.
            Post-weaken ⊥ (Kept held i w3) (Kept held i w) (release i w3)
              (λ w4 j. Kept-since held i w w3 w4 (k.0) j) (release-Kept held i w3 (k.1))))

nothing_open :
    (s : RfcommSession)
    → s.sock ≡ false
    → s.notifier ≡ false
    → s.sdp_task ≡ false
    → closes s ≡ ok tt
nothing_open s h k l = ground arith

pub rfcomm_sdp_lookup_channel_complete-Kept :
    (held : ℕ) (found : Bool) (a : Answers) (i : ℕ) (w : Service)
    → SessionOk held (w.sessions i) (on_lists i w)
    → is_rfc_sdp (w.sessions i).state ≡ true
    → Holds (Kept held i w) (rfcomm_sdp_lookup_channel_complete found a i w)
unfolding rfcomm_sdp_lookup_channel_complete
rfcomm_sdp_lookup_channel_complete-Kept held found a i w k d =
    let s = w.sessions i in
    let f = lookup_fields s.state s d (k.0) in
    let n = busy_places s.autoreconnect (is_rfc_disconnected s.state) (on_lists i w) (f.4) (k.2) in
    let b = busy_refs held s (is_rfc_disconnected s.state) (f.4) (k.1) in
    let s1 = looked_up s in
    let s2 = record s1 { state = rfc_disconnected } in
    rw (f.0, d)
      (Post-if ⊥ (Kept held i w) (not found) (disconnect false i (put i s1 w)) _
        (λ _.
          Post-weaken ⊥ (Kept held i (put i s1 w)) (Kept held i w) (disconnect false i (put i s1 w))
            (λ w' j. Kept-since held i w (put i s1 w) w' (put-Frame i s1 w) j)
            (disconnect-Kept held false i (put i s1 w) s1 (put-get i s1 w) (f.4)
              (nothing_open s1 (f.1) (f.2) refl) b n))
        (λ _.
          Post-weaken ⊥ (Kept held i (put i s2 w)) (Kept held i w) _
            (λ w' j. Kept-since held i w (put i s2 w) w' (put-Frame i s2 w) j)
            (rest_of_lookup-Kept held a i (put i s2 w) s2 (put-get i s2 w)
              (record {
                state = refl;
                sdp_task = refl;
                no_sock = f.1;
                no_notifier = f.2;
                no_timeout = refl;
                opening = f.3;
                busy = b;
              })
              n)))
