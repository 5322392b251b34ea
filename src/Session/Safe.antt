-- ===== src/Session/Safe.antt =====
-- `UpdateIndicator` of libhfp/hfp.cpp fails no assertion and keeps the invariant of the session.
use nohands.Prelude.{
  ℕ, ◌≡◌, refl, Bool, true, false, not, ◌||◌, Option, none, ℤ, pos, negsuc, ◌==ℤ◌, arith,
}
use nohands.Text.{Bytes}
use nohands.Text.Strtol.{strtol_int}
use nohands.Gsm.{GsmClipResult}
use nohands.CallSetup.{cancel_if, no_updates}
use nohands.Faults.Post.{Holds, Post-map, Post-if}
use nohands.CallSetup.Invariant.{Inv, Legal, Entry}
use nohands.Session.{HfpSession, Status, env, is_connected, notify_call, emit}
use nohands.Session.Disconnect.{update_call}
use nohands.Session.Invariant.{SessionInv, update_call-SessionInv, update_call-Entry}
use nohands.Session.Indicators.{
  update_call_indicator, update_status, propagate_indicator, update_indicator,
}

pub Legal-one :
    (ring : ℕ) (clip : Option GsmClipResult) (timeout_ms : ℕ) → Legal (pos 1) ring clip timeout_ms
Legal-one ring clip timeout_ms = record {
  none_clip = λ h. cc;
  none_ring = λ h. absurd (h refl);
  none_timeout = λ h. absurd (h refl);
}

Legal-plain : (val : ℤ) → Legal val 0 none 0
Legal-plain val = record {
  none_clip = λ h. refl;
  none_ring = λ h. refl;
  none_timeout = λ h k l. refl;
}

-- The session with another call state, of which the client has been told.
with_call : Bool → HfpSession → HfpSession
with_call b s =
    emit (notify_call (record no_updates { upd_ac = true }))
      (record s { call = record s.call { state_call = b } })

with_call-SessionInv : (b : Bool) (s : HfpSession) → SessionInv s → SessionInv (with_call b s)
unfolding with_call
with_call-SessionInv b s v = ground arith

call_indicator-SessionInv :
    (val : ℤ) (s : HfpSession)
    → is_connected s ≡ true
    → SessionInv s
    → Holds SessionInv (update_call_indicator val s)
unfolding update_call_indicator with_call
call_indicator-SessionInv val s h v =
    let s' = with_call (not (val ==ℤ pos 0)) s in
    let v' = with_call-SessionInv (not (val ==ℤ pos 0)) s v in
    ground (arith, v', update_call-SessionInv (pos 0) 0 none 0 s' (Legal-plain (pos 0)) h v')

pub with_status-SessionInv :
    (t : Status) (s : HfpSession) → SessionInv s → SessionInv (record s { status = t })
with_status-SessionInv t s v = record {
  call_inv = v.call_inv;
  command_timer = v.command_timer;
  channel = v.channel;
  incomplete = v.incomplete;
}

propagate-SessionInv :
    (indnum val : ℤ) (s : HfpSession) → SessionInv s → SessionInv (propagate_indicator indnum val s)
unfolding propagate_indicator
propagate-SessionInv (negsuc n) val s v = v
propagate-SessionInv (pos n) val s v = ground arith

-- The service has gone: the callsetup timer is stopped, and there is no call.
without_service : Bool → HfpSession → HfpSession
without_service b s = record s {
  status = record s.status { service = b };
  call = record s.call { state_call = false; timer = cancel_if s.call.timer };
}

without_service-Entry :
    (s : HfpSession)
    → Inv (env s) s.call
    → Entry (env s) (record s.call { state_call = false; timer = cancel_if s.call.timer })
without_service-Entry s v = ground arith

without_service-SessionInv :
    (val : ℤ) (s : HfpSession)
    → is_connected s ≡ true
    → SessionInv s
    → Holds SessionInv (update_call (pos 0) 0 none 0 (without_service (not (val ==ℤ pos 0)) s))
unfolding without_service
without_service-SessionInv val s h v =
    update_call-Entry (pos 0) 0 none 0 (without_service (not (val ==ℤ pos 0)) s)
      (Legal-plain (pos 0)) v.command_timer (v.channel h) h (without_service-Entry s v.call_inv)

update_status-SessionInv :
    (indnum val : ℤ) (s : HfpSession)
    → is_connected s ≡ true
    → SessionInv s
    → Holds SessionInv (update_status indnum val s)
unfolding update_status without_service
update_status-SessionInv indnum val s h v =
    Post-if ⊥ SessionInv (indnum ==ℤ s.inums.service) _ _
      (λ _.
        Post-if ⊥ SessionInv (not (val ==ℤ pos 0)) _ _ (λ _. with_status-SessionInv _ s v)
          (λ _. without_service-SessionInv val s h v))
      (λ _.
        Post-if ⊥ SessionInv (indnum ==ℤ s.inums.signal) _ _ (λ _. with_status-SessionInv _ s v)
          (λ _.
            Post-if ⊥ SessionInv (indnum ==ℤ s.inums.roam) _ _ (λ _. with_status-SessionInv _ s v)
              (λ _.
                Post-if ⊥ SessionInv (indnum ==ℤ s.inums.battchg) _ _
                  (λ _. with_status-SessionInv _ s v) (λ _. v))))

-- On a session that keeps the invariant, whatever the number and the value of an indicator,
-- UpdateIndicator fails no assertion, uses no null timer, and keeps the invariant.
pub update_indicator-SessionInv :
    (indnum : ℤ) (buf : Bytes) (s : HfpSession)
    → SessionInv s
    → Holds SessionInv (update_indicator indnum buf s)
unfolding update_indicator
update_indicator-SessionInv indnum buf s v =
    let val = (strtol_int 0 buf).0 in
    Post-if ⊥ SessionInv (indnum ==ℤ pos 0 || not (is_connected s)) _ _ (λ _. v)
      (λ on.
        let h : is_connected s ≡ true = ground arith in
        Post-if ⊥ SessionInv (indnum ==ℤ s.inums.call) _ _
          (λ _. call_indicator-SessionInv val s h v)
          (λ _.
            Post-if ⊥ SessionInv (indnum ==ℤ s.inums.callsetup) _ _
              (λ _.
                Post-if ⊥ SessionInv (not (val ==ℤ pos 1)) _ _
                  (λ _. update_call-SessionInv val 0 none 0 s (Legal-plain val) h v) (λ _. v))
              (λ _.
                Post-map ⊥ SessionInv SessionInv (update_status indnum val s)
                  (propagate_indicator indnum val) (update_status-SessionInv indnum val s h v)
                  (λ s' v'. propagate-SessionInv indnum val s' v'))))
