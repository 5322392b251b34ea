-- ===== src/Rfcomm/Retries.antt =====
-- AutoReconnectTimeout keeps the invariant: each session that waits is tried, and none is forgotten.
use nohands.Prelude.{
  ℕ, zero, suc, ◌≤◌, ◌<◌, ◌≡◌, refl, ap, ◌∙◌, inl, inr, Bool, true, false, not, ◌&&◌, List, [], ◌∷◌,
  ◌++◌, if◌then◌else◌, List-cases, is_empty, length, arith,
}
use nohands.Faults.{null_pointer, fault, ok, ◌>>=◌}
use nohands.Faults.Post.{Holds, Post-bind, Post-map, Post-if, Post-weaken}
use nohands.Rfcomm.{Service, is_rfc_disconnected}
use nohands.Rfcomm.Requests.{
  connect, auto_reconnect, Dials, retry_all, set_again, auto_reconnect_timeout,
}
use nohands.Rfcomm.Frame.{count, on_lists, count-append, is_empty-append}
use nohands.Rfcomm.Invariant.{one_if, SessionOk, Inv, Inv-Frame}
use nohands.Rfcomm.Keeps.{Kept}
use nohands.Rfcomm.Opens.{Idle-of}
use nohands.Rfcomm.Asks.{connect-Kept}

-- A session on a list is disconnected.
pub waits_idle : (b d : Bool) (n : ℕ) → n ≡ one_if (b && d) → 0 < n → d ≡ true
waits_idle true true n h k = refl
waits_idle true false n h k = absurd (omega arith)
waits_idle false d n h k = absurd (omega arith)

pub auto_reconnect-Kept :
    (held : ℕ) (new_timer submitted : Bool) (i : ℕ) (w : Service)
    → SessionOk held (w.sessions i) (on_lists i w)
    → 0 < on_lists i w
    → Holds (Kept held i w) (auto_reconnect new_timer submitted i w)
unfolding auto_reconnect
auto_reconnect-Kept held new_timer submitted i w k p =
    let s = w.sessions i in
    let d = waits_idle s.autoreconnect (is_rfc_disconnected s.state) (on_lists i w) (k.2) p in
    let h = Idle-of held s (on_lists i w) k d in
    rw ((h.shape).4) (
      Post-map ⊥ (λ r. Kept held i w r.0) (Kept held i w) (connect new_timer submitted i w)
        (λ r. r.0) (connect-Kept held new_timer submitted i w k) (λ r j. j))

-- The loop's invariant.
pub record Retrying (held : ℕ → ℕ) (w w' : Service) : Type 0 where
  pub inv : Inv held false w'
  pub timer_kept : w'.timer ≡ w.timer

abbrev pub Retried : (ℕ → ℕ) → Service → Service → Type 0
Retried held w w' = Retrying held w w' × (w'.retry ≡ [])

-- The first session of `retrylist` goes to the delayed list.
abbrev pub delayed : ℕ → List ℕ → Service → Service
delayed i is w = record w { retry = is; list = w.list ++ i ∷ [] }

module _ (i : ℕ) (is : List ℕ) (w : Service) (e : w.retry ≡ i ∷ is) where
  pub delayed_places : (j : ℕ) → on_lists j (delayed i is w) ≡ on_lists j w
  delayed_places j = ground (arith, count-append j i w.list, ap (count j) e)

  pub delayed-Inv : (held : ℕ → ℕ) → Inv held false w → Inv held false (delayed i is w)
  delayed-Inv held h = record {
    every = λ j. rw (delayed_places j) (h.every j);
    flags = ((h.flags).0, λ s. ground (arith, (h.flags).1 s, is_empty-append i w.list));
    paired = h.paired;
  }

  pub delayed_listed : 0 < on_lists i (delayed i is w)
  delayed_listed = ground (arith, count-append i i w.list)

pub retry_none :
    (dials : Dials) (fuel : ℕ) (w : Service) → w.retry ≡ [] → retry_all dials fuel w ≡ ok w
unfolding retry_all
retry_none dials zero w e = simp e
retry_none dials (suc fuel) w e = simp (e, retry_all)

pub retry_first :
    (dials : Dials) (fuel i : ℕ) (is : List ℕ) (w : Service)
    → w.retry ≡ i ∷ is
    → retry_all dials (suc fuel) w
      ≡ (auto_reconnect (dials i).0 (dials i).1 i (delayed i is w) >>= retry_all dials fuel)
unfolding retry_all
retry_first dials fuel i is w e = rw (e, retry_all) refl

pub retry_all-Retried :
    (held : ℕ → ℕ) (dials : Dials) (fuel : ℕ) (w : Service)
    → Inv held false w
    → length w.retry ≤ fuel
    → Holds (Retried held w) (retry_all dials fuel w)
retry_all-Retried held dials zero w h f = elim (List-cases w.retry) [
  | inl e ↦ rw (retry_none dials zero w e) (record { inv = h; timer_kept = refl }, e)
  | inr (i, is, e) ↦ absurd (omega (arith, ap length e))
]
retry_all-Retried held dials (suc fuel) w h f = elim (List-cases w.retry) [
  | inl e ↦ rw (retry_none dials (suc fuel) w e) (record { inv = h; timer_kept = refl }, e)
  | inr (i, is, e) ↦
      let w1 = delayed i is w in
      let h1 = delayed-Inv i is w e held h in
      rw (retry_first dials fuel i is w e) (
        Post-bind ⊥ (Kept (held i) i w1) (Retried held w)
          (auto_reconnect (dials i).0 (dials i).1 i w1) _
          (auto_reconnect-Kept (held i) (dials i).0 (dials i).1 i w1 (h1.every i)
            (delayed_listed i is w e))
          (λ w2 k.
            Post-weaken ⊥ (Retried held w2) (Retried held w) (retry_all dials fuel w2)
              (λ w3 r.
                (record { inv = ((r.0).inv); timer_kept = (r.0).timer_kept ∙ (k.0).timers }, r.1))
              (retry_all-Retried held dials fuel w2 (Inv-Frame held false i w1 w2 h1 (k.0) (k.1))
                (omega (arith, (k.0).retry_le, ap length e)))))
]

-- Between two events.
pub record Settled (held : ℕ → ℕ) (w : Service) : Type 0 where
  pub inv : Inv held true w
  pub retry_empty : w.retry ≡ []

left_over : (t e s : Bool) → t ≡ true → (not e && not s) ≡ true → true ≡ (t && not e)
left_over t e s h k = ground arith

as_it_was :
    (t e s : Bool)
    → t ≡ true
    → (not e && not s) ≡ false
    → (s ≡ true → (t && not e) ≡ true)
    → s ≡ (t && not e)
as_it_was t e s h k f = ground arith

set_again-Settled :
    (held : ℕ → ℕ) (w : Service)
    → Inv held false w
    → w.retry ≡ []
    → w.timer ≡ true
    → Holds (Settled held) (set_again w)
unfolding set_again
set_again-Settled held w h e t =
    Post-if ⊥ (Settled held) (not (is_empty w.list) && not w.list_set) _ (ok w)
      (λ b.
        Post-if ⊥ (Settled held) w.timer (ok (record w { list_set = true })) (fault null_pointer)
          (λ _. record {
            inv = record {
              every = h.every;
              flags = ((h.flags).0, left_over w.timer (is_empty w.list) w.list_set t b);
              paired = h.paired;
            };
            retry_empty = e;
          })
          (λ c. cc))
      (λ b. record {
        inv = record {
          every = h.every;
          flags = ((h.flags).0, as_it_was w.timer (is_empty w.list) w.list_set t b ((h.flags).1));
          paired = h.paired;
        };
        retry_empty = e;
      })

-- The lists move to `retrylist`.
abbrev pub now_moved : Service → Service
now_moved w = record w { now_set = false; retry = w.now_list; now_list = [] }

abbrev pub later_moved : Service → Service
later_moved w = record w { list_set = false; retry = w.list; list = [] }

pub now_moved-Inv : (held : ℕ → ℕ) (w : Service) → Settled held w → Inv held false (now_moved w)
now_moved-Inv held w h = record {
  every = λ j.
      let e : on_lists j (now_moved w) ≡ on_lists j w =
        ground (arith, ap (count j) h.retry_empty) in
      rw e (h.inv.every j);
  flags = (ground arith, λ s. ground arith);
  paired = h.inv.paired;
}

pub later_moved-Inv : (held : ℕ → ℕ) (w : Service) → Settled held w → Inv held false (later_moved w)
later_moved-Inv held w h = record {
  every = λ j.
      let e : on_lists j (later_moved w) ≡ on_lists j w =
        ground (arith, ap (count j) h.retry_empty) in
      rw e (h.inv.every j);
  flags = ((h.inv.flags).0, λ s. cc);
  paired = h.inv.paired;
}

retried_again :
    (held : ℕ → ℕ) (dials : Dials) (w : Service)
    → Inv held false w
    → w.timer ≡ true
    → Holds (Settled held) (retry_all dials (length w.retry) w >>= set_again)
retried_again held dials w h t =
    Post-bind ⊥ (Retried held w) (Settled held) (retry_all dials (length w.retry) w) set_again
      (retry_all-Retried held dials (length w.retry) w h (omega arith))
      (λ w' r. set_again-Settled held w' ((r.0).inv) (r.1) ((r.0).timer_kept ∙ t))

pub set_timer : (b c t : Bool) → t ≡ (b && c) → t ≡ true → b ≡ true
set_timer true c t e s = refl
set_timer false c t e s = cc

pub auto_reconnect_timeout-Settled :
    (held : ℕ → ℕ) (now : Bool) (dials : Dials) (w : Service)
    → Settled held w
    → (if now then w.now_set else w.list_set) ≡ true
    → Holds (Settled held) (auto_reconnect_timeout now dials w)
unfolding auto_reconnect_timeout
auto_reconnect_timeout-Settled held true dials w h s = rw s (
    retried_again held dials (now_moved w) (now_moved-Inv held w h) (
      h.inv.paired
      ∙ set_timer w.now_timer (not (is_empty w.now_list)) w.now_set ((h.inv.flags).0) s))
auto_reconnect_timeout-Settled held false dials w h s = rw s (
    retried_again held dials (later_moved w) (later_moved-Inv held w h)
      (set_timer w.timer (not (is_empty w.list)) w.list_set ((h.inv.flags).1) s))
