-- ===== src/Rfcomm/Asks.antt =====
-- RfcommConnect without a channel, Connect and SetAutoReconnect keep the invariant.
use mathlib.Core.Path.{subst}
use nohands.Prelude.{ℕ, ◌≡◌, refl, ap, sym, ◌∙◌, inl, inr, Bool, true, false, Bool-cases, arith}
use nohands.Faults.{ok, ◌>>=◌}
use nohands.Faults.Post.{Holds, Post-map}
use nohands.Session.{ConnState, disconnected, rfcomm_connecting, handshaking, connected}
use nohands.Rfcomm.{
  State, rfc_disconnected, rfc_sdp_lookup_channel, rfc_connecting, rfc_connected, RfcommSession,
  Service, put, is_rfc_disconnected, is_bts_disconnected, is_opening,
}
use nohands.Rfcomm.Connect.{clear_operation_timeout}
use nohands.Rfcomm.Requests.{
  sdp_lookup, rfcomm_sdp_lookup_channel, unless_looked, lookup_connect, rfcomm_lookup_connect,
  unless_connecting, connect,
}
use nohands.Rfcomm.Frame.{on_lists, Frame, Frame-refl, Frame-trans, put-Frame, put-get, Leads}
use nohands.Rfcomm.Invariant.{Shape, SessionOk, Leads-eq, Leads-trans, put-Leads, is_open}
use nohands.Rfcomm.Keeps.{Kept, Kept-since, Leads-Kept}
use nohands.Rfcomm.Opens.{Idle, Idle-of, SessionOk-Idle, Asked, Begun, sdp_lookup-Asked}

clear_timed :
    (s : RfcommSession) (b : Bool)
    → s.operation_timeout ≡ false
    → clear_operation_timeout (record s { operation_timeout = b }) ≡ s
clear_timed s b h = ground arith

unless_looked-Asked :
    (held i : ℕ) (w w' : Service) (s : RfcommSession) (n : ℕ) (r : Service × Bool)
    → s.operation_timeout ≡ false
    → Frame i w w'
    → Asked held i w' (record s { operation_timeout = true }) n r
    → Asked held i w s n (unless_looked i r)
unless_looked-Asked held i w w' s n (w'', true) t f k = Kept-since held i w w' w'' f k
unless_looked-Asked held i w w' s n (w'', false) t f l =
    let s2 = clear_operation_timeout (w''.sessions i) in
    let timed = record s { operation_timeout = true } in
    Leads-eq i w _ s2 s n n (ap clear_operation_timeout l.session ∙ clear_timed s true t) refl (
      Leads-trans i w w'' (put i s2 w'') timed s2 n n
        (record {
          frame = Frame-trans i w w' w'' f l.frame;
          session = l.session;
          places = l.places;
        })
        (Leads-eq i w'' (put i s2 w'') s2 s2 (on_lists i w'') n refl l.places (put-Leads i s2 w'')))

module _ (held : ℕ) (i : ℕ) (w : Service) (s : RfcommSession) (e : w.sessions i ≡ s)
    (h : Begun held s (on_lists i w)) (t : s.operation_timeout ≡ false) where
  no_timer : Leads i w s (on_lists i w) (put i (record s { operation_timeout = false }) w)
  no_timer =
      Leads-eq i w _ (record s { operation_timeout = false }) s (on_lists i w) (on_lists i w)
        (clear_timed s false t ∙ refl) refl (put-Leads i (record s { operation_timeout = false }) w)

  looked :
      (submitted : Bool)
      → Holds (Asked held i w s (on_lists i w)) (
          rfcomm_sdp_lookup_channel submitted i (put i (record s { operation_timeout = true }) w)
          >>= λ r. ok (unless_looked i r))
  looked submitted =
      let s' = record s { operation_timeout = true } in
      let w' = put i s' w in
      let n = on_lists i w in
      Post-map ⊥ (Asked held i w' s' n) (Asked held i w s n)
        (rfcomm_sdp_lookup_channel submitted i w') (λ r. unless_looked i r)
        (subst (λ x. Holds (Asked held i w' s' n) (sdp_lookup submitted i x w'))
          (sym (put-get i s' w))
          (sdp_lookup-Asked held submitted i w' s' (put-get i s' w)
            (record {
              state = h.state;
              closed = h.closed;
              opening = h.opening;
              refs = h.refs;
              place = h.place;
            })
            refl))
        (λ r a. unless_looked-Asked held i w w' s n r t (put-Frame i s' w) a)

  pub lookup_connect-Asked :
      (new_timer submitted : Bool)
      → Holds (Asked held i w s (on_lists i w)) (lookup_connect new_timer submitted i s w)
  unfolding lookup_connect
  lookup_connect-Asked true submitted = simp (t, h.state) (looked submitted)
  lookup_connect-Asked false submitted = simp (t, h.state) no_timer

not_both : (c : ConnState) → is_bts_disconnected c ≡ true → is_opening c ≡ true → ⊥
not_both disconnected h k = cc
not_both rfcomm_connecting h k = cc
not_both handshaking h k = cc
not_both connected h k = cc

not_open : (c : ConnState) → is_bts_disconnected c ≡ true → is_open c ≡ true → ⊥
not_open disconnected h k = cc
not_open rfcomm_connecting h k = cc
not_open handshaking h k = cc
not_open connected h k = cc

conn_idle :
    (st : State) (s : RfcommSession)
    → Shape st s
    → is_bts_disconnected s.conn_state ≡ true
    → is_rfc_disconnected st ≡ true
conn_idle rfc_disconnected s h b = refl
conn_idle rfc_sdp_lookup_channel s h b = absurd (not_both s.conn_state b (h.4))
conn_idle rfc_connecting s h b = absurd (not_both s.conn_state b (h.4))
conn_idle rfc_connected s h b = absurd (not_open s.conn_state b (h.3))

abbrev opening : RfcommSession → RfcommSession
opening s = record s { conn_state = rfcomm_connecting }

abbrev closing : RfcommSession → RfcommSession
closing s = record s { conn_state = disconnected }

unless_connecting-Kept :
    (held i : ℕ) (w w1 : Service) (s : RfcommSession) (n : ℕ) (r : Service × Bool)
    → Frame i w w1
    → SessionOk held (closing s) n
    → Asked held i w1 (opening s) n r
    → Kept held i w (unless_connecting i r).0
unless_connecting-Kept held i w w1 s n (w', true) f k a = Kept-since held i w w1 w' f a
unless_connecting-Kept held i w w1 s n (w', false) f k a =
    let s2 = closing (w'.sessions i) in
    Kept-since held i w w1 (put i s2 w') f (
      Kept-since held i w1 w' (put i s2 w') a.frame (
        Leads-Kept held i w' (put i s2 w') (closing s) n k (
          Leads-eq i w' (put i s2 w') s2 (closing s) (on_lists i w') n (ap closing a.session)
            a.places (put-Leads i s2 w'))))

closing_ok : (held : ℕ) (s : RfcommSession) (n : ℕ) → Idle held s n → Idle held (closing s) n
closing_ok held s n h = record {
  state = h.state;
  shape = ((h.shape).0, (h.shape).1, (h.shape).2, (h.shape).3, refl);
  refs = h.refs;
  place = h.place;
}

-- `HfpSession::Connect`.
pub connect-Kept :
    (held : ℕ) (new_timer submitted : Bool) (i : ℕ) (w : Service)
    → SessionOk held (w.sessions i) (on_lists i w)
    → Holds (λ r. Kept held i w r.0) (connect new_timer submitted i w)
unfolding connect
connect-Kept held new_timer submitted i w k =
    let s = w.sessions i in
    let n = on_lists i w in
    elim (Bool-cases (is_bts_disconnected s.conn_state)) [
      | inl b ↦
          let h = Idle-of held s n k (conn_idle s.state s (k.0) b) in
          let w1 = put i (opening s) w in
          rw b (
            Post-map ⊥ (Asked held i w1 (opening s) n) (λ r. Kept held i w r.0)
              (rfcomm_lookup_connect new_timer submitted i w1) (λ r. unless_connecting i r)
              (subst
                (λ x.
                  Holds (Asked held i w1 (opening s) n) (lookup_connect new_timer submitted i x w1))
                (sym (put-get i (opening s) w))
                (lookup_connect-Asked held i w1 (opening s) (put-get i (opening s) w)
                  (record {
                    state = h.state;
                    closed = ((h.shape).1, (h.shape).2);
                    opening = refl;
                    refs = h.refs;
                    place = h.place;
                  })
                  ((h.shape).3) new_timer submitted))
              (λ r a.
                unless_connecting-Kept held i w w1 s n r (put-Frame i (opening s) w)
                  (SessionOk-Idle held (closing s) n (closing_ok held s n h)) a))
      | inr b ↦ rw b (Frame-refl i w, k)
    ]
