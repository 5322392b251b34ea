-- ===== src/Rfcomm/Invariant.antt =====
-- The invariant of the sessions of a service, and the end of a connection.
use nohands.Prelude.{
  ℕ, ◌+◌, ◌-◌, ◌<◌, ◌≡◌, ◌≢◌, refl, ap, sym, ◌∙◌, inl, inr, Bool, true, false, not, ◌&&◌, ◌==◌,
  lt→ltb, if◌then◌else◌, Bool-cases, arith,
}
use nohands.Faults.{ok}
use nohands.Faults.Post.{Holds, Post-bind, Post-weaken}
use nohands.Session.{ConnState, disconnected, handshaking, connected}
use nohands.Rfcomm.{
  State, rfc_disconnected, rfc_sdp_lookup_channel, rfc_connecting, rfc_connected, RfcommSession,
  Service, put, is_rfc_disconnected, is_bts_disconnected, is_opening,
}
use nohands.Rfcomm.Reconnect.{add_auto_reconnect}
use nohands.Rfcomm.Connect.{closes, closed, release, notify_disconnected, close_session, disconnect}
use nohands.Rfcomm.Frame.{
  on_lists, Frame, Frame-refl, Frame-trans, put-Frame, put-get, Leads, add-Leads, Flags,
}

abbrev pub is_open : ConnState → Bool
is_open handshaking = true
is_open connected = true
is_open _ = false

-- What is open in each state.
abbrev pub Shape : State → RfcommSession → Type 0
Shape rfc_disconnected s =
    (s.sdp_task ≡ false)
    × (s.sock ≡ false)
    × (s.notifier ≡ false)
    × (s.operation_timeout ≡ false)
    × (is_bts_disconnected s.conn_state ≡ true)
Shape rfc_sdp_lookup_channel s =
    (s.sdp_task ≡ true)
    × (s.sock ≡ false)
    × (s.notifier ≡ false)
    × (s.operation_timeout ≡ true)
    × (is_opening s.conn_state ≡ true)
Shape rfc_connecting s =
    (s.sdp_task ≡ false)
    × (s.sock ≡ true)
    × (s.notifier ≡ true)
    × (s.operation_timeout ≡ true)
    × (is_opening s.conn_state ≡ true)
Shape rfc_connected s =
    (s.sdp_task ≡ false)
    × (s.sock ≡ true)
    × (s.operation_timeout ≡ false)
    × (is_open s.conn_state ≡ true)

abbrev pub one_if : Bool → ℕ
one_if true = 1
one_if false = 0

-- A session waits for a connection: it is on one of the lists.
abbrev pub waits : RfcommSession → ℕ
waits s = one_if (s.autoreconnect && is_rfc_disconnected s.state)

-- A session to which the client holds `held` references.
abbrev pub SessionOk : ℕ → RfcommSession → ℕ → Type 0
SessionOk held s n =
    Shape s.state s
    × (s.refs ≡ held + one_if s.autoreconnect + one_if (not (is_rfc_disconnected s.state)))
    × (n ≡ waits s)

abbrev pub Ok : (ℕ → ℕ) → ℕ → Service → Type 0
Ok held i w = SessionOk (held i) (w.sessions i) (on_lists i w)

pub record Inv (held : ℕ → ℕ) (settled : Bool) (w : Service) : Type 0 where
  pub every : (i : ℕ) → Ok held i w
  pub flags : Flags settled w
  pub paired : w.timer ≡ w.now_timer

-- An operation on one session keeps the invariant if it keeps that session's.
pub Inv-Frame :
    (held : ℕ → ℕ) (settled : Bool) (i : ℕ) (w w' : Service)
    → Inv held settled w
    → Frame i w w'
    → Ok held i w'
    → Inv held settled w'
Inv-Frame held settled i w w' h f k = record {
  every = λ j. elim (Bool-cases (i == j)) [
    | inl e ↦ let e' : i ≡ j = ground arith in rw (← e') k
    | inr e ↦ let n : i ≢ j = ground arith in rw (f.others j n, f.places j n) (h.every j)
  ];
  flags = f.flags settled h.flags;
  paired = f.timers ∙ h.paired ∙ sym f.now_timers;
}

pub Leads-Ok :
    (held : ℕ → ℕ) (i : ℕ) (w w' : Service) (s : RfcommSession) (n : ℕ)
    → Leads i w s n w'
    → SessionOk (held i) s n
    → Ok held i w'
Leads-Ok held i w w' s n l k = rw (l.session, l.places) k

pub put-Leads : (i : ℕ) (s : RfcommSession) (w : Service) → Leads i w s (on_lists i w) (put i s w)
put-Leads i s w = record { frame = put-Frame i s w; session = put-get i s w; places = refl }

pub Leads-trans :
    (i : ℕ) (w w' w'' : Service) (s t : RfcommSession) (m n : ℕ)
    → Leads i w s m w'
    → Leads i w' t n w''
    → Leads i w t n w''
Leads-trans i w w' w'' s t m n h k = record {
  frame = Frame-trans i w w' w'' h.frame k.frame;
  session = k.session;
  places = k.places;
}

-- `s` and `n` rewritten by equations.
pub Leads-eq :
    (i : ℕ) (w w' : Service) (s t : RfcommSession) (m n : ℕ)
    → s ≡ t
    → m ≡ n
    → Leads i w s m w'
    → Leads i w t n w'
Leads-eq i w w' s t m n e f l = record {
  frame = l.frame;
  session = l.session ∙ e;
  places = l.places ∙ f;
}

pub release-Leads :
    (i : ℕ) (w : Service) (s : RfcommSession) (n : ℕ)
    → w.sessions i ≡ s
    → on_lists i w ≡ n
    → 0 < s.refs
    → Holds (Leads i w (record s { refs = s.refs - 1 }) n) (release i w)
unfolding release
release-Leads i w s n e f r =
    simp (e, lt→ltb 0 s.refs r)
      (Leads-eq i w _ _ _ _ _ refl f (put-Leads i (record s { refs = s.refs - 1 }) w))

notify_disconnected-Leads :
    (i : ℕ) (w : Service) (s : RfcommSession) (n : ℕ)
    → w.sessions i ≡ s
    → on_lists i w ≡ n
    → 0 < s.refs
    → is_bts_disconnected s.conn_state ≡ true
    → Holds (Leads i w (record s { refs = s.refs - 1 }) n) (notify_disconnected i w)
unfolding notify_disconnected
notify_disconnected-Leads i w s n e f r b = simp (e, b) (release-Leads i w s n e f r)

-- A session that waits for a connection is put on the list.
requeue-Leads :
    (b : Bool) (i : ℕ) (w : Service)
    → on_lists i w ≡ 0
    → is_rfc_disconnected (w.sessions i).state ≡ true
    → Holds (Leads i w (w.sessions i) (one_if b)) (if b then add_auto_reconnect false i w else ok w)
requeue-Leads true i w h d = add-Leads i w false h d
requeue-Leads false i w h d = record { frame = Frame-refl i w; session = refl; places = h }

-- What `__Disconnect` leaves.
abbrev pub gone : Bool → RfcommSession → RfcommSession
gone voluntary s = record (closed voluntary s) { refs = s.refs - 1 }

close_session-Leads :
    (voluntary : Bool) (i : ℕ) (w : Service) (s : RfcommSession)
    → closes s ≡ ok tt
    → 0 < s.refs
    → is_bts_disconnected s.conn_state ≡ true
    → on_lists i w ≡ 0
    → Holds (Leads i w (gone voluntary s) (one_if s.autoreconnect)) (close_session voluntary i s w)
unfolding close_session
close_session-Leads voluntary i w s c r b n =
    let w1 = put i (closed voluntary s) w in
    let e : w1.sessions i ≡ closed voluntary s = put-get i (closed voluntary s) w in
    simp c (
      Post-bind ⊥ (Leads i w1 (w1.sessions i) (one_if s.autoreconnect)) _ _ _
        (requeue-Leads s.autoreconnect i w1 n
          (ap (λ (t : RfcommSession). is_rfc_disconnected t.state) e))
        (λ w2 l.
          Post-weaken ⊥ _ _ (notify_disconnected i w2)
            (λ w3 m.
              Leads-trans i w w1 w3 _ _ _ _ (put-Leads i (closed voluntary s) w)
                (Leads-trans i w1 w2 w3 _ _ _ _ l m))
            (notify_disconnected-Leads i w2 (closed voluntary s) (one_if s.autoreconnect)
              (l.session ∙ e) l.places r b)))

pub disconnect-Leads :
    (voluntary : Bool) (i : ℕ) (w : Service) (s : RfcommSession)
    → w.sessions i ≡ s
    → is_rfc_disconnected s.state ≡ false
    → closes s ≡ ok tt
    → 0 < s.refs
    → on_lists i w ≡ 0
    → Holds
        (Leads i w
          (gone voluntary (record s { conn_state = disconnected }))
          (one_if s.autoreconnect))
        (disconnect voluntary i w)
unfolding disconnect
disconnect-Leads voluntary i w s e d c r n =
    simp (e, d)
      (close_session-Leads voluntary i w (record s { conn_state = disconnected }) c r refl n)
