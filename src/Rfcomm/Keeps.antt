-- ===== src/Rfcomm/Keeps.antt =====
-- The steps of a connection keep the invariant.
use nohands.Prelude.{
  ℕ, ◌+◌, ◌≡◌, refl, ap, Bool, true, false, not, ◌&&◌, ◌||◌, if◌then◌else◌, arith,
}
use nohands.Faults.{ok}
use nohands.Faults.Post.{Holds, Post-if, Post-weaken}
use nohands.Session.{handshaking}
use nohands.Rfcomm.{
  State, rfc_disconnected, rfc_sdp_lookup_channel, rfc_connecting, rfc_connected, RfcommSession,
  Service, put, is_rfc_disconnected, is_rfc_sdp, is_rfc_connecting, is_rfcomm_connected,
  is_bts_disconnected, is_opening,
}
use nohands.Rfcomm.Connect.{closes, disconnect, notify_connected, rfcomm_connect_notify}
use nohands.Rfcomm.Frame.{on_lists, Frame, Frame-trans, put-Frame, put-get, Leads}
use nohands.Rfcomm.Invariant.{
  is_open, Shape, one_if, SessionOk, Leads-eq, put-Leads, disconnect-Leads,
}

-- Only session `i` has changed, and it keeps the invariant.
abbrev pub Kept : ℕ → ℕ → Service → Service → Type 0
Kept held i w w' = Frame i w w' × SessionOk held (w'.sessions i) (on_lists i w')

pub Kept-since :
    (held : ℕ) (i : ℕ) (w w' w'' : Service) → Frame i w w' → Kept held i w' w'' → Kept held i w w''
Kept-since held i w w' w'' f k = (Frame-trans i w w' w'' f (k.0), k.1)

pub Leads-Kept :
    (held : ℕ) (i : ℕ) (w w' : Service) (s : RfcommSession) (n : ℕ)
    → SessionOk held s n
    → Leads i w s n w'
    → Kept held i w w'
Leads-Kept held i w w' s n k l = (l.frame, rw (l.session, l.places) k)

-- The references to a session that is not disconnected.
abbrev pub RefsBusy : ℕ → RfcommSession → Type 0
RefsBusy held s = s.refs ≡ held + one_if s.autoreconnect + 1

waits-auto : (b : Bool) → one_if b ≡ one_if (b && true)
waits-auto true = refl
waits-auto false = refl

pub disconnect-Kept :
    (held : ℕ) (voluntary : Bool) (i : ℕ) (w : Service) (s : RfcommSession)
    → w.sessions i ≡ s
    → is_rfc_disconnected s.state ≡ false
    → closes s ≡ ok tt
    → RefsBusy held s
    → on_lists i w ≡ 0
    → Holds (Kept held i w) (disconnect voluntary i w)
disconnect-Kept held voluntary i w s e d c r n =
    Post-weaken ⊥ _ _ (disconnect voluntary i w)
      (λ w' l.
        Leads-Kept held i w w' _ _
          ((refl, refl, refl, refl, refl), omega arith, waits-auto s.autoreconnect) l)
      (disconnect-Leads voluntary i w s e d c (omega arith) n)

-- A session whose socket has just been connected.
pub record Fresh (held : ℕ) (s : RfcommSession) : Type 0 where
  pub state : is_rfcomm_connected s.state ≡ true
  pub sdp_task : s.sdp_task ≡ false
  pub sock : s.sock ≡ true
  pub no_timeout : s.operation_timeout ≡ false
  pub conn_state : (is_bts_disconnected s.conn_state || is_opening s.conn_state) ≡ true
  pub no_notifier : s.notifier ≡ false
  pub busy : RefsBusy held s

connected_state :
    (st : State)
    → is_rfcomm_connected st ≡ true
    → (is_rfc_disconnected st ≡ false) × (is_rfc_sdp st ≡ false)
connected_state rfc_disconnected h = cc
connected_state rfc_sdp_lookup_channel h = cc
connected_state rfc_connecting h = cc
connected_state rfc_connected h = (refl, refl)

connected-Shape :
    (st : State) (s : RfcommSession)
    → is_rfcomm_connected st ≡ true
    → (s.sdp_task ≡ false)
      × (s.sock ≡ true)
      × (s.operation_timeout ≡ false)
      × (is_open s.conn_state ≡ true)
    → Shape st s
connected-Shape rfc_disconnected s h k = cc
connected-Shape rfc_sdp_lookup_channel s h k = cc
connected-Shape rfc_connecting s h k = cc
connected-Shape rfc_connected s h k = k

-- Whether it has a notifier by now or not.
closes-Fresh :
    (held : ℕ) (b : Bool) (s : RfcommSession)
    → Fresh held s
    → closes (record s { notifier = b }) ≡ ok tt
closes-Fresh held b s f = ground (arith, connected_state s.state f.state)

connected_waits : (b d : Bool) → d ≡ false → 0 ≡ one_if (b && d)
connected_waits true d h = rw h refl
connected_waits false d h = refl

shaken_ok :
    (held : ℕ) (s : RfcommSession)
    → Fresh held s
    → SessionOk held (record s { conn_state = handshaking; notifier = true }) 0
shaken_ok held s f =
    let c = connected_state s.state f.state in
    (
      connected-Shape s.state (record s { conn_state = handshaking; notifier = true }) f.state
          (f.sdp_task, f.sock, f.no_timeout, refl),
      rw (c.0) f.busy,
      connected_waits s.autoreconnect (is_rfc_disconnected s.state) (c.0),
    )

pub notify_connected-Kept :
    (held : ℕ) (shaken : Bool) (i : ℕ) (w : Service) (s : RfcommSession)
    → w.sessions i ≡ s
    → Fresh held s
    → on_lists i w ≡ 0
    → Holds (Kept held i w) (notify_connected shaken i w)
unfolding notify_connected
notify_connected-Kept held shaken i w s e f n =
    let s' = record s { conn_state = handshaking; notifier = true } in
    let w' = put i s' w in
    simp (e, f.conn_state, f.no_notifier)
      (Post-if ⊥ (Kept held i w) shaken (ok w') (disconnect false i w')
        (λ b.
          Leads-Kept held i w w' s' 0 (shaken_ok held s f)
            (Leads-eq i w w' s' s' _ 0 refl n (put-Leads i s' w)))
        (λ b.
          Post-weaken ⊥ _ _ (disconnect false i w')
            (λ w'' k. Kept-since held i w w' w'' (put-Frame i s' w) k)
            (disconnect-Kept held false i w' s' (put-get i s' w) (connected_state s.state f.state).0
              (closes-Fresh held true s f) f.busy n)))

notified :
    (notp : Bool) (s : RfcommSession)
    → s.notifier ≡ notp
    → (if notp then s.notifier else not s.notifier) ≡ true
notified true s h = h
notified false s h = ap not h

-- RfcommConnectNotify, of a session whose connection has been asked for.
pub rfcomm_connect_notify-Kept :
    (held : ℕ) (notp no_error shaken : Bool) (i : ℕ) (w : Service) (s : RfcommSession)
    → w.sessions i ≡ s
    → is_rfc_connecting s.state ≡ true
    → s.notifier ≡ notp
    → (s.sdp_task ≡ false) × (s.sock ≡ true)
    → (is_bts_disconnected s.conn_state || is_opening s.conn_state) ≡ true
    → RefsBusy held s
    → on_lists i w ≡ 0
    → Holds (Kept held i w) (rfcomm_connect_notify notp no_error shaken i w)
unfolding rfcomm_connect_notify
rfcomm_connect_notify-Kept held notp no_error shaken i w s e c m k o b n =
    let s' = record s { operation_timeout = false; notifier = false; state = rfc_connected } in
    let w' = put i s' w in
    let fresh : Fresh held s' = record {
      state = refl;
      sdp_task = k.0;
      sock = k.1;
      no_timeout = refl;
      conn_state = o;
      no_notifier = refl;
      busy = b;
    } in
    simp (e, c, notified notp s m)
      (Post-weaken ⊥ (Kept held i w') (Kept held i w)
        (if no_error then notify_connected shaken i w' else disconnect false i w')
        (λ w'' l. Kept-since held i w w' w'' (put-Frame i s' w) l)
        (Post-if ⊥ (Kept held i w') no_error (notify_connected shaken i w') (disconnect false i w')
          (λ _. notify_connected-Kept held shaken i w' s' (put-get i s' w) fresh n)
          (λ _.
            disconnect-Kept held false i w' s' (put-get i s' w) refl
              (closes-Fresh held false s' fresh) b n)))
