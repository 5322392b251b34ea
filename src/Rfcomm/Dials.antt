-- ===== src/Rfcomm/Dials.antt =====
-- RfcommConnect to a channel, and the end of the SDP lookup that leads to it.
use mathlib.Core.Path.{subst}
use nohands.Prelude.{
  ℕ, ◌+◌, ◌≡◌, refl, ap, sym, ◌∙◌, inl, inr, Bool, true, false, not, ◌&&◌, if◌then◌else◌,
  Bool-cases, arith,
}
use nohands.Faults.{ok}
use nohands.Faults.Post.{Holds, Post-map, Post-if, Post-weaken}
use nohands.Rfcomm.{
  rfc_connecting, RfcommSession, Service, put, is_rfc_disconnected, is_opening, get_ref,
}
use nohands.Rfcomm.Connect.{
  Answers, Connecting, at_once, in_progress, failed, reaches_connect, failure, dialled,
  pending_connect, on_connect, rfcomm_connect, rfcomm_connect_notify, clear_operation_timeout,
}
use nohands.Rfcomm.Frame.{on_lists, Frame-refl, put-Frame, put-get, Leads, not_listed}
use nohands.Rfcomm.Invariant.{one_if, Leads-eq, Leads-trans, put-Leads}
use nohands.Rfcomm.Keeps.{Kept, Kept-since, RefsBusy, rfcomm_connect_notify-Kept}

-- The session while its SDP lookup ends, with the reference of the lookup.
pub record Looked (held : ℕ) (s : RfcommSession) : Type 0 where
  pub state : is_rfc_disconnected s.state ≡ true
  pub sdp_task : s.sdp_task ≡ false
  pub no_sock : s.sock ≡ false
  pub no_notifier : s.notifier ≡ false
  pub no_timeout : s.operation_timeout ≡ false
  pub opening : is_opening s.conn_state ≡ true
  pub busy : RefsBusy held s

abbrev Reached : ℕ → ℕ → Service → Service × Bool → Type 0
Reached held i w r = Kept (held + 1) i w r.0 × (r.1 ≡ true)

abbrev dialling : RfcommSession → RfcommSession
dialling s = record (get_ref s) { state = rfc_connecting; inbound = false; sock = true }

no_wait : (b : Bool) → 0 ≡ one_if (b && false)
no_wait true = refl
no_wait false = refl

notify_or_wait :
    (held : ℕ) (a : Answers) (i : ℕ) (w : Service) (s : RfcommSession) (b : Bool)
    → w.sessions i ≡ dialling s
    → s.notifier ≡ b
    → s.operation_timeout ≡ b
    → s.sdp_task ≡ false
    → is_opening s.conn_state ≡ true
    → RefsBusy held s
    → on_lists i w ≡ 0
    → Holds
        (Kept (held + 1) i w)
        (if b then ok w else rfcomm_connect_notify false a.no_error a.shaken i w)
notify_or_wait held a i w s true e m t k o r n =
    (Frame-refl i w, rw (e, n) ((k, refl, m, t, o), omega arith, no_wait s.autoreconnect))
notify_or_wait held a i w s false e m t k o r n =
    rfcomm_connect_notify-Kept (held + 1) false a.no_error a.shaken i w (dialling s) e refl m
      (k, refl) (ground arith) (omega arith) n

dialled-Reached :
    (held : ℕ) (a : Answers) (i : ℕ) (w : Service) (s : RfcommSession)
    → w.sessions i ≡ s
    → s.operation_timeout ≡ s.notifier
    → s.sdp_task ≡ false
    → is_opening s.conn_state ≡ true
    → RefsBusy held s
    → on_lists i w ≡ 0
    → Holds (Reached held i w) (dialled a i w)
unfolding dialled
dialled-Reached held a i w s e t k o r n =
    let w1 = put i (dialling s) w in
    simp (e, not_listed i w n)
      (Post-map ⊥ (Kept (held + 1) i w1) (Reached held i w)
        (if s.notifier then ok w1 else rfcomm_connect_notify false a.no_error a.shaken i w1)
        (λ w3. (w3, true))
        (notify_or_wait held a i w1 s s.notifier (put-get i (dialling s) w) refl t k o r n)
        (λ w3 l. (Kept-since (held + 1) i w w1 w3 (put-Frame i (dialling s) w) l, refl)))

-- RfcommConnect reaches the connection, or leaves the session as it was.
abbrev pub Tried : ℕ → ℕ → Service → RfcommSession → Service × Bool → Type 0
Tried held i w s (w', true) = Kept (held + 1) i w w'
Tried held i w s (w', false) = Leads i w s 0 w'

Reached-Tried :
    (held i : ℕ) (w : Service) (s : RfcommSession) (r : Service × Bool)
    → Reached held i w r
    → Tried held i w s r
Reached-Tried held i w s (w', true) h = h.0
Reached-Tried held i w s (w', false) h = cc

clear_same : (s : RfcommSession) → s.operation_timeout ≡ false → clear_operation_timeout s ≡ s
clear_same s h = ground arith

-- Without a connection the session is as it was, a timer that was set off again.
failure-Leads :
    (i : ℕ) (w w' : Service) (s : RfcommSession) (b : Bool)
    → s.operation_timeout ≡ false
    → Leads i w (record s { operation_timeout = b }) 0 w'
    → Leads i w s 0 (failure i w')
failure-Leads i w w' s b h l = Leads-trans i w w' _ _ _ _ _ l (
    Leads-eq i w' _ _ s _ 0 (ap clear_operation_timeout l.session ∙ clear_same s h) l.places
      (put-Leads i (clear_operation_timeout (w'.sessions i)) w'))

module _ (held : ℕ) (a : Answers) (i : ℕ) (w : Service) (s : RfcommSession) (e : w.sessions i ≡ s)
    (l : Looked held s) (n : on_lists i w ≡ 0) where
  same : Leads i w s 0 w
  same = record { frame = Frame-refl i w; session = e; places = n }

  failed_same : Leads i w s 0 (failure i w)
  failed_same =
      failure-Leads i w w s false l.no_timeout
        (Leads-eq i w w s _ 0 0 (sym (clear_same s l.no_timeout)) refl same)

  reset : (b : Bool) → Leads i w s 0 (failure i (put i (record s { operation_timeout = b }) w))
  reset b =
      let s' = record s { operation_timeout = b } in
      failure-Leads i w (put i s' w) s b l.no_timeout
        (Leads-eq i w (put i s' w) s' s' _ 0 refl n (put-Leads i s' w))

  pending_connect-Tried : Holds (Tried held i w s) (pending_connect a i s w)
  unfolding pending_connect
  pending_connect-Tried = elim (Bool-cases a.new_timer) [
    | inl t ↦ elim (Bool-cases a.new_socket) [
      | inl k ↦
          let s' = record s { operation_timeout = true; notifier = true } in
          let w' = put i s' w in
          simp (l.no_timeout, t, k)
            (Post-weaken ⊥ (Reached held i w') (Tried held i w s) (dialled a i w')
              (λ r h.
                Reached-Tried held i w s r
                  (Kept-since (held + 1) i w w' r.0 (put-Frame i s' w) (h.0), h.1))
              (dialled-Reached held a i w' s' (put-get i s' w) refl l.sdp_task l.opening l.busy n))
      | inr k ↦ simp (l.no_timeout, t, k) (reset true)
    ]
    | inr t ↦ simp (l.no_timeout, t) (reset false)
  ]

  on_connect-Tried : (c : Connecting) → Holds (Tried held i w s) (on_connect c a i w)
  unfolding on_connect
  on_connect-Tried at_once =
      Post-weaken ⊥ (Reached held i w) (Tried held i w s) (dialled a i w) (Reached-Tried held i w s)
        (dialled-Reached held a i w s e (l.no_timeout ∙ sym l.no_notifier) l.sdp_task l.opening
          l.busy n)
  on_connect-Tried in_progress =
      subst (λ t. Holds (Tried held i w s) (pending_connect a i t w)) (sym e) pending_connect-Tried
  on_connect-Tried failed = failed_same

  pub rfcomm_connect-Tried : Holds (Tried held i w s) (rfcomm_connect a i w)
  unfolding rfcomm_connect
  rfcomm_connect-Tried = rw (ap (λ (t : RfcommSession). is_rfc_disconnected t.state) e ∙ l.state) (
      Post-if ⊥ (Tried held i w s) (not a.hci) (ok (w, false)) _ (λ _. same)
        (λ _.
          Post-if ⊥ (Tried held i w s) (not (reaches_connect a)) (ok (failure i w, false)) _
            (λ _. failed_same) (λ _. on_connect-Tried a.connect)))
