-- ===== src/Rfcomm/Safe.antt =====
-- No event breaks the invariant, and no session that is to be connected again is forgotten.
use nohands.Prelude.{
  ℕ, ◌≡◌, refl, ap, sym, ◌∙◌, Bool, true, false, not, ◌||◌, List, [], ◌∷◌, length, ◌≤◌, arith,
}
use nohands.Faults.{Result}
use nohands.Faults.Post.{Holds, IfOk-at, Holds-IfOk, Post-map, Post-weaken}
use nohands.Rfcomm.{
  State, rfc_disconnected, rfc_sdp_lookup_channel, rfc_connecting, rfc_connected, RfcommSession,
  Service, is_rfc_disconnected, is_rfc_connecting, is_rfcomm_connecting, is_rfcomm_connected,
  is_opening,
}
use nohands.Rfcomm.Reconnect.{start, started, stop}
use nohands.Rfcomm.Connect.{disconnect, rfcomm_connect_notify}
use nohands.Rfcomm.Requests.{connect, rfcomm_accept, rfcomm_operation_timeout}
use nohands.Rfcomm.Frame.{on_lists}
use nohands.Rfcomm.Invariant.{Shape, Inv-Frame}
use nohands.Rfcomm.Keeps.{Kept, rfcomm_connect_notify-Kept}
use nohands.Rfcomm.Ends.{
  disconnect_any-Kept, busy_refs, busy_places, rfcomm_sdp_lookup_channel_complete-Kept,
}
use nohands.Rfcomm.Opens.{rfcomm_accept-Kept}
use nohands.Rfcomm.Asks.{connect-Kept}
use nohands.Rfcomm.Auto.{set_auto_reconnect-Kept}
use nohands.Rfcomm.Retries.{Settled, auto_reconnect_timeout-Settled}
use nohands.Rfcomm.Serve.{
  Request, start_service, stop_service, connect_to, disconnect_from, reconnect_to, looked_up,
  socket_writable, accepted, timed_out, reconnect_timer, serve, Possible, Reach, here, next,
}

connecting_fields :
    (st : State) (s : RfcommSession)
    → is_rfc_connecting st ≡ true
    → Shape st s
    → (s.sdp_task ≡ false)
      × (s.sock ≡ true)
      × (s.notifier ≡ true)
      × (is_opening s.conn_state ≡ true)
      × (is_rfc_disconnected st ≡ false)
connecting_fields rfc_disconnected s d h = cc
connecting_fields rfc_sdp_lookup_channel s d h = cc
connecting_fields rfc_connecting s d h = (h.0, h.1, h.2, h.4, refl)
connecting_fields rfc_connected s d h = cc

timed_state :
    (st : State) (s : RfcommSession)
    → s.operation_timeout ≡ true
    → Shape st s
    → (is_rfcomm_connecting st || is_rfcomm_connected st) ≡ true
timed_state rfc_disconnected s t h = cc
timed_state rfc_sdp_lookup_channel s t h = refl
timed_state rfc_connecting s t h = refl
timed_state rfc_connected s t h = cc

no_more : (is js : List ℕ) → is ≡ [] → length js ≤ length is → js ≡ []
no_more is [] e h = refl
no_more is (j ∷ js) e h = absurd (omega (arith, ap length e))

module _ (held : ℕ → ℕ) (w : Service) (h : Settled held w) where
  -- An operation on one session.
  one_session : (i : ℕ) (m : Result Service) → Holds (Kept (held i) i w) m → Holds (Settled held) m
  one_session i m k =
      Post-weaken ⊥ (Kept (held i) i w) (Settled held) m
        (λ w' j. record {
          inv = Inv-Frame held true i w w' h.inv (j.0) (j.1);
          retry_empty = no_more w.retry w'.retry h.retry_empty ((j.0).retry_le);
        })
        k

  stopped_Settled : Settled held (stop w)
  unfolding stop
  stopped_Settled = record {
    inv = record {
      every = h.inv.every;
      flags = (ground (arith, (h.inv.flags).0), ground (arith, (h.inv.flags).1));
      paired = refl;
    };
    retry_empty = h.retry_empty;
  }

  both_Settled : w.timer ≡ false → Settled held (started w)
  both_Settled t = record {
    inv = record {
      every = h.inv.every;
      flags = (ground (arith, (h.inv.flags).0, h.inv.paired), ground (arith, (h.inv.flags).1));
      paired = refl;
    };
    retry_empty = h.retry_empty;
  }

  -- The second timer could not be created.
  one_Settled : w.timer ≡ false → Settled held (stop (record w { timer = true }))
  unfolding stop
  one_Settled t = record {
    inv = record {
      every = h.inv.every;
      flags = (ground (arith, (h.inv.flags).0, h.inv.paired), ground (arith, (h.inv.flags).1));
      paired = refl;
    };
    retry_empty = h.retry_empty;
  }

  start_Settled : (a b : Bool) → w.timer ≡ false → Holds (λ r. Settled held r.0) (start a b w)
  unfolding start
  start_Settled false b t = rw (ap not t, ap not (sym h.inv.paired ∙ t)) h
  start_Settled true false t = rw (ap not t, ap not (sym h.inv.paired ∙ t)) (one_Settled t)
  start_Settled true true t = rw (ap not t, ap not (sym h.inv.paired ∙ t)) (both_Settled t)

  writable_Settled :
      (i : ℕ) (no_error shaken : Bool)
      → is_rfc_connecting (w.sessions i).state ≡ true
      → Holds (Settled held) (rfcomm_connect_notify true no_error shaken i w)
  writable_Settled i no_error shaken d =
      let s = w.sessions i in
      let k = h.inv.every i in
      let f = connecting_fields s.state s d (k.0) in
      one_session i _ (
        rfcomm_connect_notify-Kept (held i) true no_error shaken i w s refl d (f.2) (f.0, f.1)
          (ground (arith, f.3)) (busy_refs (held i) s (is_rfc_disconnected s.state) (f.4) (k.1))
          (busy_places s.autoreconnect (is_rfc_disconnected s.state) (on_lists i w) (f.4) (k.2)))

  timed_Settled :
      (i : ℕ)
      → (w.sessions i).operation_timeout ≡ true
      → Holds (Settled held) (rfcomm_operation_timeout i w)
  unfolding rfcomm_operation_timeout
  timed_Settled i t =
      let s = w.sessions i in
      let k = h.inv.every i in
      rw (timed_state s.state s t (k.0), t)
        (one_session i (disconnect false i w) (disconnect_any-Kept (held i) false i w k))

-- Whatever happens to a service whose sessions keep the invariant - a call of its client, an
-- answer of the system, a timer of those that are set -, whatever the system answers meanwhile: no
-- assertion fails, no null timer is used, the loop over the sessions to connect again comes to its
-- end, and the invariant is kept. It says what is open in each state of a session, that its
-- references are those of the client, of automatic connection and of the connection, that exactly
-- a session that waits for a connection is on a list, and that a list's timer is set when it is
-- not empty.
pub serve-Settled :
    (held : ℕ → ℕ) (w : Service) (r : Request)
    → Settled held w
    → Possible r w
    → Holds (Settled held) (serve r w)
unfolding serve
serve-Settled held w (start_service a b) h p =
    Post-map ⊥ (λ r. Settled held r.0) (Settled held) (start a b w) (λ r. r.0)
      (start_Settled held w h a b p) (λ r j. j)
serve-Settled held w stop_service h p = stopped_Settled held w h
serve-Settled held w (connect_to i a b) h p = one_session held w h i _ (
    Post-map ⊥ (λ r. Kept (held i) i w r.0) (Kept (held i) i w) (connect a b i w) (λ r. r.0)
      (connect-Kept (held i) a b i w (h.inv.every i)) (λ r j. j))
serve-Settled held w (disconnect_from i v) h p =
    one_session held w h i _ (disconnect_any-Kept (held i) v i w (h.inv.every i))
serve-Settled held w (reconnect_to i b) h p =
    one_session held w h i _ (set_auto_reconnect-Kept (held i) i w (h.inv.every i) b)
serve-Settled held w (looked_up i found a) h p =
    one_session held w h i _
      (rfcomm_sdp_lookup_channel_complete-Kept (held i) found a i w (h.inv.every i) p)
serve-Settled held w (socket_writable i a b) h p = writable_Settled held w h i a b p
serve-Settled held w (accepted i b) h p = one_session held w h i _ (
    Post-map ⊥ (λ r. Kept (held i) i w r.0) (Kept (held i) i w) (rfcomm_accept b i w) (λ r. r.0)
      (rfcomm_accept-Kept (held i) b i w (h.inv.every i)) (λ r j. j))
serve-Settled held w (timed_out i) h p = timed_Settled held w h i p
serve-Settled held w (reconnect_timer now dials) h p =
    auto_reconnect_timeout-Settled held now dials w h p

-- The invariant is kept on every path.
pub Reach-Settled : (held : ℕ → ℕ) {w w' : Service} → Settled held w → Reach w w' → Settled held w'
Reach-Settled held h here = h
Reach-Settled held h (next r path p e) =
    IfOk-at (Settled held) _ _
      (Holds-IfOk (Settled held) _ (serve-Settled held _ r (Reach-Settled held h path) p)) e
