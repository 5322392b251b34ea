-- ===== src/Rfcomm/Opens.antt =====
-- Connections that a client, the system or the service asks for.
use nohands.Prelude.{
  ℕ, ◌+◌, ◌≡◌, refl, ap, sym, ◌∙◌, inl, inr, Bool, true, false, not, ◌&&◌, if◌then◌else◌,
  Bool-cases, arith,
}
use nohands.Faults.{ok}
use nohands.Faults.Post.{Holds, Post-bind, Post-map}
use nohands.Rfcomm.{
  State, rfc_disconnected, rfc_sdp_lookup_channel, rfc_connecting, rfc_connected, RfcommSession,
  Service, put, is_rfc_disconnected, is_opening, get_ref,
}
use nohands.Rfcomm.Reconnect.{remove_auto_reconnect}
use nohands.Rfcomm.Connect.{notify_connected}
use nohands.Rfcomm.Requests.{sdp_lookup, rfcomm_accept}
use nohands.Rfcomm.Frame.{
  on_lists, Frame-refl, Frame-trans, put-Frame, put-get, Leads, remove-Leads,
}
use nohands.Rfcomm.Invariant.{Shape, one_if, SessionOk, Leads-eq, Leads-trans, put-Leads}
use nohands.Rfcomm.Keeps.{Kept, Kept-since, Leads-Kept, notify_connected-Kept}

-- A session that is disconnected.
pub record Idle (held : ℕ) (s : RfcommSession) (n : ℕ) : Type 0 where
  pub state : is_rfc_disconnected s.state ≡ true
  pub shape : Shape rfc_disconnected s
  pub refs : s.refs ≡ held + one_if s.autoreconnect
  pub place : n ≡ one_if s.autoreconnect

idle-Shape :
    (st : State) (s : RfcommSession)
    → is_rfc_disconnected st ≡ true
    → Shape st s
    → Shape rfc_disconnected s
idle-Shape rfc_disconnected s d h = h
idle-Shape rfc_sdp_lookup_channel s d h = cc
idle-Shape rfc_connecting s d h = cc
idle-Shape rfc_connected s d h = cc

idle_back :
    (st : State) (s : RfcommSession)
    → is_rfc_disconnected st ≡ true
    → Shape rfc_disconnected s
    → Shape st s
idle_back rfc_disconnected s d h = h
idle_back rfc_sdp_lookup_channel s d h = cc
idle_back rfc_connecting s d h = cc
idle_back rfc_connected s d h = cc

and_true : (b d : Bool) → d ≡ true → one_if (b && d) ≡ one_if b
and_true true d h = rw h refl
and_true false d h = refl

pub Idle-of :
    (held : ℕ) (s : RfcommSession) (n : ℕ)
    → SessionOk held s n
    → is_rfc_disconnected s.state ≡ true
    → Idle held s n
Idle-of held s n k d = record {
  state = d;
  shape = idle-Shape s.state s d (k.0);
  refs = k.1 ∙ ap (λ b. held + one_if s.autoreconnect + one_if (not b)) d ∙ omega arith;
  place = k.2 ∙ and_true s.autoreconnect (is_rfc_disconnected s.state) d;
}

pub SessionOk-Idle : (held : ℕ) (s : RfcommSession) (n : ℕ) → Idle held s n → SessionOk held s n
SessionOk-Idle held s n h = (
  idle_back s.state s h.state h.shape,
  ground (arith, h.state, h.refs),
  h.place ∙ sym (and_true s.autoreconnect (is_rfc_disconnected s.state) h.state),
)

-- A session that has left its list because its connection begins.
pub left_list :
    (b : Bool) (i : ℕ) (w : Service)
    → on_lists i w ≡ one_if b
    → Holds (Leads i w (w.sessions i) 0) (if b then remove_auto_reconnect i w else ok w)
left_list true i w n = remove-Leads i w n
left_list false i w n = record { frame = Frame-refl i w; session = refl; places = n }

-- RfcommAccept.
abbrev accepted : RfcommSession → RfcommSession
accepted s = record (get_ref s) { sock = true; inbound = true; state = rfc_connected }

pub rfcomm_accept-Kept :
    (held : ℕ) (shaken : Bool) (i : ℕ) (w : Service)
    → SessionOk held (w.sessions i) (on_lists i w)
    → Holds (λ r. Kept held i w r.0) (rfcomm_accept shaken i w)
unfolding rfcomm_accept
rfcomm_accept-Kept held shaken i w k =
    elim (Bool-cases (is_rfc_disconnected (w.sessions i).state)) [
      | inl d ↦
          let s = w.sessions i in
          let w1 = put i (accepted s) w in
          let h = Idle-of held s (on_lists i w) k d in
          rw d (
            Post-bind ⊥ (Leads i w1 (w1.sessions i) 0) _
              (if s.autoreconnect then remove_auto_reconnect i w1 else ok w1) _
              (left_list s.autoreconnect i w1 h.place)
              (λ w2 l.
                Post-map ⊥ (Kept held i w2) _ (notify_connected shaken i w2) (λ w3. (w3, true))
                  (notify_connected-Kept held shaken i w2 (accepted s)
                    (l.session ∙ put-get i (accepted s) w)
                    (record {
                      state = refl;
                      sdp_task = (h.shape).0;
                      sock = refl;
                      no_timeout = (h.shape).3;
                      conn_state = ground (arith, (h.shape).4);
                      no_notifier = (h.shape).2;
                      busy = omega (arith, h.refs);
                    })
                    l.places)
                  (λ w3 j.
                    Kept-since held i w w2 w3
                      (Frame-trans i w w1 w2 (put-Frame i (accepted s) w) l.frame) j)))
      | inr d ↦ rw d (Frame-refl i w, k)
    ]

-- What an attempt leaves: a session under way, or the session `s`, `n` times on the lists.
abbrev pub Asked : ℕ → ℕ → Service → RfcommSession → ℕ → Service × Bool → Type 0
Asked held i w s n (w', true) = Kept held i w w'
Asked held i w s n (w', false) = Leads i w s n w'

-- A session that is disconnected but for a connection state and a timer that are set already.
pub record Begun (held : ℕ) (s : RfcommSession) (n : ℕ) : Type 0 where
  pub state : is_rfc_disconnected s.state ≡ true
  pub closed : (s.sock ≡ false) × (s.notifier ≡ false)
  pub opening : is_opening s.conn_state ≡ true
  pub refs : s.refs ≡ held + one_if s.autoreconnect
  pub place : n ≡ one_if s.autoreconnect

abbrev pub looking : RfcommSession → RfcommSession
looking s = record (get_ref s) { state = rfc_sdp_lookup_channel; sdp_task = true }

not_waiting : (b : Bool) → 0 ≡ one_if (b && false)
not_waiting true = refl
not_waiting false = refl

looking_ok :
    (held : ℕ) (s : RfcommSession) (n : ℕ)
    → Begun held s n
    → s.operation_timeout ≡ true
    → SessionOk held (looking s) 0
looking_ok held s n h t = (
  (refl, (h.closed).0, (h.closed).1, t, h.opening),
  omega (arith, h.refs),
  not_waiting s.autoreconnect,
)

pub sdp_lookup-Asked :
    (held : ℕ) (submitted : Bool) (i : ℕ) (w : Service) (s : RfcommSession)
    → w.sessions i ≡ s
    → Begun held s (on_lists i w)
    → s.operation_timeout ≡ true
    → Holds (Asked held i w s (on_lists i w)) (sdp_lookup submitted i s w)
unfolding sdp_lookup
sdp_lookup-Asked held false i w s e h t =
    rw h.state (record { frame = Frame-refl i w; session = e; places = refl })
sdp_lookup-Asked held true i w s e h t =
    let w1 = put i (looking s) w in
    rw h.state (
      Post-map ⊥ (Leads i w1 (w1.sessions i) 0) _
        (if s.autoreconnect then remove_auto_reconnect i w1 else ok w1) (λ w2. (w2, true))
        (left_list s.autoreconnect i w1 h.place)
        (λ w2 l. Leads-Kept held i w w2 (looking s) 0 (looking_ok held s (on_lists i w) h t) (
          Leads-trans i w w1 w2 (looking s) (looking s) (on_lists i w) 0 (put-Leads i (looking s) w)
            (Leads-eq i w1 w2 (w1.sessions i) (looking s) 0 0 (put-get i (looking s) w) refl l))))
