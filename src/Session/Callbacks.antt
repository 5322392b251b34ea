-- ===== src/Session/Callbacks.antt =====
-- The `Response` methods of libhfp/hfp.cpp lose no callback of a pending command and make none twice.
use nohands.Prelude.{
  ℕ, length, suc, ◌+◌, ◌≡◌, Bool, true, not, Option, none, some, List, [], ◌∷◌, pos, arith,
}
use nohands.Text.{Bytes, codes, strip_prefix, skip_ws}
use nohands.Faults.{Result}
use nohands.Faults.Post.{IfOk, Post-bind, Post-map, Post-if}
use nohands.Session.{
  Command, generic, chld_test, brsf, cind_test, cind_read, cnum, cops, clcc, AtCommand, Reply,
  HfpSession,
}
use nohands.Session.Indicators.{update_indicator}
use nohands.Session.Hold.{set_supported_hold_modes}
use nohands.Session.Unsolicited.{set_bvra}
use nohands.Session.Replies.{
  complete_pending, alive, update_each, cind_read_response, cind_values, when_some, response,
  base_ok,
}
use nohands.Session.Owed.{owed, Owes, OwesWith, disconnect-Owes}
use nohands.Session.Once.{complete_pending-Owes, store-Owes, update_indicator-Owes}

alive-Owes :
    (id n : ℕ) (cs : List AtCommand) (m : Result HfpSession)
    → IfOk (Owes id n) m
    → IfOk (Owes id n) (alive cs m)
alive-Owes id n [] m h = tt
alive-Owes id n (c ∷ cs) m h = h

update_each-Owes :
    (id n indnum : ℕ) (vs : List Bytes) (s : HfpSession)
    → owed id s ≡ n
    → IfOk (Owes id n) (update_each indnum vs s)
unfolding update_each
update_each-Owes id n indnum [] s e = e
update_each-Owes id n indnum (v ∷ vs) s e = alive-Owes id n s.commands _ (
    Post-bind (Unit {0}) (Owes id n) (Owes id n) (update_indicator (pos indnum) v s)
      (update_each (indnum + 1) vs) (update_indicator-Owes id n (pos indnum) v s e)
      (λ s' e'. update_each-Owes id n (indnum + 1) vs s' e'))

when_some-Owes {ℓ} :
    {A : Type ℓ} (id n : ℕ) (o : Option A) (s : HfpSession) (act : A → Result HfpSession)
    → owed id s ≡ n
    → ((a : A) → IfOk (Owes id n) (act a))
    → IfOk (Owes id n) (when_some o s act)
unfolding when_some
when_some-Owes id n none s act e h = e
when_some-Owes id n (some a) s act e h = h a

cind_read-Owes :
    (id n : ℕ) (buf : Bytes) (s : HfpSession)
    → owed id s ≡ n
    → IfOk (Owes id n) (cind_read_response buf s)
unfolding cind_read_response
cind_read-Owes id n buf s e =
    when_some-Owes id n (cind_values (suc (length buf)) buf) s _ e
      (λ values. update_each-Owes id n 1 values s e)

hold_modes-Owes :
    (id n : ℕ) (modes : Bytes) (s : HfpSession)
    → owed id s ≡ n
    → IfOk (Owes id n) (set_supported_hold_modes modes s)
unfolding set_supported_hold_modes
hold_modes-Owes id n modes s e =
    Post-if (Unit {0}) (Owes id n) s.memory_left _ _ (λ _. e) (λ _. disconnect-Owes id n true _ e)

pub response-Owes :
    (id n : ℕ) (kind : Command) (buf : Bytes) (s : HfpSession)
    → owed id s ≡ n
    → IfOk (Owes id n) (response kind buf s)
unfolding response
response-Owes id n (generic text res) buf s e = store-Owes id n (generic text (some buf)) s e
response-Owes id n chld_test buf s e =
    when_some-Owes id n (strip_prefix (codes "+CHLD:") buf) s _ e
      (λ rest. hold_modes-Owes id n (skip_ws rest) s e)
response-Owes id n (brsf caps res) buf s e =
    when_some-Owes id n (strip_prefix (codes "+BRSF:") buf) s _ e (λ rest. store-Owes id n _ s e)
response-Owes id n cind_test buf s e =
    when_some-Owes id n (strip_prefix (codes "+CIND:") buf) s _ e (λ rest. e)
response-Owes id n cind_read buf s e =
    when_some-Owes id n (strip_prefix (codes "+CIND:") buf) s _ e
      (λ rest. cind_read-Owes id n rest s e)
response-Owes id n (cnum res) buf s e =
    when_some-Owes id n (strip_prefix (codes "+CNUM:") buf) s _ e (λ rest. store-Owes id n _ s e)
response-Owes id n (cops sent_fmt res) buf s e =
    Post-if (Unit {0}) (Owes id n) (not sent_fmt) _ _ (λ _. e)
      (λ _.
        when_some-Owes id n (strip_prefix (codes "+COPS:") buf) s _ e
          (λ rest. store-Owes id n _ s e))
response-Owes id n (clcc results) buf s e =
    when_some-Owes id n (strip_prefix (codes "+CLCC:") buf) s _ e (λ rest. store-Owes id n _ s e)
response-Owes id n _ buf s e = e

pub set_bvra-Owes :
    (id n : ℕ) (b : Bool) (s : HfpSession) → owed id s ≡ n → owed id (set_bvra b s) ≡ n
unfolding set_bvra
set_bvra-Owes id n b s e = ground arith

pub base_ok-Owes :
    (id n : ℕ) (reply : Reply) (s : HfpSession)
    → owed id s ≡ n
    → IfOk (OwesWith id n) (base_ok reply s)
unfolding base_ok
base_ok-Owes id n reply s e =
    Post-map (Unit {0}) (Owes id n) (OwesWith id n) (complete_pending reply s) (λ s'. (s', true))
      (complete_pending-Owes id n reply s e) (λ s' e'. e')
