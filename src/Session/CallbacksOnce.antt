-- ===== src/Session/CallbacksOnce.antt =====
-- A line from the audio gateway, through `iResponse`, `ResponseDefault` and `HfpHandshakeDone` of
-- libhfp/hfp.cpp, loses no callback of a pending command and makes none twice.
use nohands.Prelude.{ℕ, ◌≡◌, Bool, true, false, Option, none, if◌then◌else◌, ℤ, pos, arith}
use nohands.Text.{Bytes, codes, str_eq}
use nohands.Gsm.{GsmCopsResult}
use nohands.Faults.{Result, ok, ◌>>=◌}
use nohands.Faults.Post.{IfOk, Post-bind, Post-map, Post-if}
use nohands.Session.{
  Command, generic, chld_test, brsf, cmer, clip_enable, ccwa_enable, cnum, cops, clcc, bvra, nrec,
  atd, clear_call_setup, success, rejected, send_failed, HfpSession,
}
use nohands.Session.Commands.{send_command, add_command}
use nohands.Session.Indicators.{set_supported_features, feature_three_way_calling}
use nohands.Session.Replies.{
  response, base_ok, cops_next, has_connecting_call, ok_reply, error_reply, i_response,
}
use nohands.Session.Owed.{
  owed, Owes, OwesWith, disconnect-Owes, update_call-Owes, send_command-Owes,
}
use nohands.Session.Queue.{add_command-Owes}
use nohands.Session.Once.{complete_pending-Owes, store-Owes}
use nohands.Session.Callbacks.{response-Owes, base_ok-Owes, set_bvra-Owes}

features-Owes :
    (id n : ℕ) (features : ℤ) (s : HfpSession)
    → owed id s ≡ n
    → IfOk (Owes id n) (set_supported_features features s)
unfolding set_supported_features
features-Owes id n features s e = ground arith

chld_test-Owes :
    (id n : ℕ) (s : HfpSession)
    → owed id s ≡ n
    → IfOk (OwesWith id n) (
        if feature_three_way_calling s
        then add_command (record { kind = chld_test; pend = none }) false s
        else ok (s, true))
chld_test-Owes id n s e =
    Post-if (Unit {0}) (OwesWith id n) (feature_three_way_calling s) _ _
      (λ _. add_command-Owes id n (record { kind = chld_test; pend = none }) false s (omega arith))
      (λ _. e)

-- A step that may change the session, and then `AtCommand::OK`.
then_ok :
    (id n : ℕ) (m : Result HfpSession)
    → IfOk (Owes id n) m
    → IfOk (OwesWith id n) (m >>= base_ok success)
then_ok id n m h =
    Post-bind (Unit {0}) (Owes id n) (OwesWith id n) m (base_ok success) h
      (λ s' e'. base_ok-Owes id n success s' e')

cops_stage-Owes :
    (id n : ℕ) (res : Option GsmCopsResult) (r : HfpSession × Bool)
    → owed id r.0 ≡ n
    → IfOk (OwesWith id n) (cops_next res r)
unfolding cops_next
cops_stage-Owes id n res r e =
    Post-map (Unit {0}) (Owes id n) (OwesWith id n) _ (λ s'. (s', false))
      (Post-if (Unit {0}) (Owes id n) r.1 _ _ (λ _. store-Owes id n _ r.0 e)
        (λ _. complete_pending-Owes id n send_failed r.0 e))
      (λ s' e'. e')

ok_reply-Owes :
    (id n : ℕ) (kind : Command) (s : HfpSession)
    → owed id s ≡ n
    → IfOk (OwesWith id n) (ok_reply kind s)
unfolding ok_reply
ok_reply-Owes id n (generic text res) s e = base_ok-Owes id n _ s e
ok_reply-Owes id n (brsf caps res) s e =
    Post-bind (Unit {0}) (Owes id n) (OwesWith id n) (set_supported_features res s) _
      (features-Owes id n res s e)
      (λ s' e'.
        Post-bind (Unit {0}) (OwesWith id n) (OwesWith id n) _ (λ r. base_ok success r.0)
          (chld_test-Owes id n s' e') (λ r e''. base_ok-Owes id n success r.0 e''))
ok_reply-Owes id n clip_enable s e = base_ok-Owes id n success _ e
ok_reply-Owes id n ccwa_enable s e = base_ok-Owes id n success _ e
ok_reply-Owes id n (cnum res) s e = base_ok-Owes id n _ s e
ok_reply-Owes id n (cops sent_fmt res) s e =
    Post-if (Unit {0}) (OwesWith id n) sent_fmt _ _ (λ _. base_ok-Owes id n _ s e)
      (λ _.
        Post-bind (Unit {0}) (OwesWith id n) (OwesWith id n) (send_command (codes "AT+COPS?") s)
          (cops_next res) (send_command-Owes id n (codes "AT+COPS?") s e)
          (λ r e'. cops_stage-Owes id n res r e'))
ok_reply-Owes id n (clcc results) s e = base_ok-Owes id n _ s e
ok_reply-Owes id n (bvra enable) s e = base_ok-Owes id n success _ (set_bvra-Owes id n enable s e)
ok_reply-Owes id n (nrec enable) s e = base_ok-Owes id n success _ e
ok_reply-Owes id n (atd text) s e = then_ok id n _ (
    Post-if (Unit {0}) (Owes id n) (has_connecting_call s) _ _ (λ _. e)
      (λ _. update_call-Owes id n (pos 2) 0 none s.timeouts.dial s e))
ok_reply-Owes id n (clear_call_setup text) s e =
    then_ok id n _ (update_call-Owes id n (pos 0) 0 none 0 s e)
ok_reply-Owes id n _ s e = base_ok-Owes id n success s e

error_reply-Owes :
    (id n : ℕ) (kind : Command) (s : HfpSession)
    → owed id s ≡ n
    → IfOk (Owes id n) (error_reply kind s)
unfolding error_reply
error_reply-Owes id n cmer s e = disconnect-Owes id n true s e
error_reply-Owes id n _ s e = complete_pending-Owes id n rejected s e

pub i_response-Owes :
    (id n : ℕ) (kind : Command) (buf : Bytes) (s : HfpSession)
    → owed id s ≡ n
    → IfOk (OwesWith id n) (i_response kind buf s)
unfolding i_response
i_response-Owes id n kind buf s e =
    Post-if (Unit {0}) (OwesWith id n) (str_eq buf (codes "OK")) _ _
      (λ _. ok_reply-Owes id n kind s e)
      (λ _.
        Post-if (Unit {0}) (OwesWith id n) (str_eq buf (codes "ERROR")) _ _
          (λ _.
            Post-map (Unit {0}) (Owes id n) (OwesWith id n) (error_reply kind s) (λ s'. (s', true))
              (error_reply-Owes id n kind s e) (λ s' e'. e'))
          (λ _.
            Post-map (Unit {0}) (Owes id n) (OwesWith id n) (response kind buf s)
              (λ s'. (s', false)) (response-Owes id n kind buf s e) (λ s' e'. e')))
