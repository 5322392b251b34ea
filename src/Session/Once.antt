-- ===== src/Session/Once.antt =====
-- `CompletePending` and `UpdateIndicator` of libhfp/hfp.cpp lose no callback of a pending command and
-- make none twice.
use nohands.Prelude.{
  ℕ, ◌+◌, ◌≡◌, true, not, ◌||◌, none, List, [], ◌∷◌, ℤ, pos, negsuc, ◌==ℤ◌, arith,
}
use nohands.Text.{Bytes}
use nohands.Text.Strtol.{strtol_int}
use nohands.CallSetup.{no_updates}
use nohands.Faults.Post.{IfOk, Post-map, Post-if}
use nohands.Session.{Command, AtCommand, Reply, HfpSession, is_connected, emit, notify_call}
use nohands.Session.Indicators.{
  update_call_indicator, update_status, propagate_indicator, update_indicator,
}
use nohands.Session.Replies.{complete_in, complete_pending, store_in, store}
use nohands.Session.Owed.{pend_count, done_count, owed, Owes, tell-done, update_call-Owes}

complete_in-Owes :
    (id n : ℕ) (reply : Reply) (s : HfpSession) (cs : List AtCommand)
    → pend_count id cs + done_count id s.events ≡ n
    → IfOk (Owes id n) (complete_in reply s cs)
unfolding complete_in
complete_in-Owes id n reply s [] e = tt
complete_in-Owes id n reply s (c ∷ cs) e =
    ground
      (arith, tell-done id c.pend reply (record s { commands = record c { pend = none } ∷ cs }))

pub complete_pending-Owes :
    (id n : ℕ) (reply : Reply) (s : HfpSession)
    → owed id s ≡ n
    → IfOk (Owes id n) (complete_pending reply s)
unfolding complete_pending
complete_pending-Owes id n reply s e = complete_in-Owes id n reply s s.commands e

store_in-Owes :
    (id n : ℕ) (kind : Command) (s : HfpSession) (cs : List AtCommand)
    → pend_count id cs + done_count id s.events ≡ n
    → IfOk (Owes id n) (store_in kind s cs)
unfolding store_in
store_in-Owes id n kind s [] e = tt
store_in-Owes id n kind s (c ∷ cs) e = e

pub store-Owes :
    (id n : ℕ) (kind : Command) (s : HfpSession) → owed id s ≡ n → IfOk (Owes id n) (store kind s)
unfolding store
store-Owes id n kind s e = store_in-Owes id n kind s s.commands e

call_indicator-Owes :
    (id n : ℕ) (val : ℤ) (s : HfpSession)
    → owed id s ≡ n
    → IfOk (Owes id n) (update_call_indicator val s)
unfolding update_call_indicator
call_indicator-Owes id n val s e = ground (
  arith,
  update_call-Owes id n (pos 0) 0 none 0 (
      emit (notify_call (record no_updates { upd_ac = true }))
        (record s { call = record s.call { state_call = not (val ==ℤ pos 0) } })),
)

update_status-Owes :
    (id n : ℕ) (indnum val : ℤ) (s : HfpSession)
    → owed id s ≡ n
    → IfOk (Owes id n) (update_status indnum val s)
unfolding update_status
update_status-Owes id n indnum val s e =
    Post-if (Unit {0}) (Owes id n) (indnum ==ℤ s.inums.service) _ _
      (λ _.
        Post-if (Unit {0}) (Owes id n) (not (val ==ℤ pos 0)) _ _ (λ _. e)
          (λ _. update_call-Owes id n (pos 0) 0 none 0 _ e))
      (λ _. ground arith)

propagate-Owes :
    (id n : ℕ) (indnum val : ℤ) (s : HfpSession)
    → owed id s ≡ n
    → owed id (propagate_indicator indnum val s) ≡ n
unfolding propagate_indicator
propagate-Owes id n (negsuc k) val s e = e
propagate-Owes id n (pos k) val s e = ground arith

pub update_indicator-Owes :
    (id n : ℕ) (indnum : ℤ) (buf : Bytes) (s : HfpSession)
    → owed id s ≡ n
    → IfOk (Owes id n) (update_indicator indnum buf s)
unfolding update_indicator
update_indicator-Owes id n indnum buf s e =
    let val = (strtol_int 0 buf).0 in
    Post-if (Unit {0}) (Owes id n) (indnum ==ℤ pos 0 || not (is_connected s)) _ _ (λ _. e)
      (λ _.
        Post-if (Unit {0}) (Owes id n) (indnum ==ℤ s.inums.call) _ _
          (λ _. call_indicator-Owes id n val s e)
          (λ _.
            Post-if (Unit {0}) (Owes id n) (indnum ==ℤ s.inums.callsetup) _ _
              (λ _.
                Post-if (Unit {0}) (Owes id n) (not (val ==ℤ pos 1)) _ _
                  (λ _. update_call-Owes id n val 0 none 0 s e) (λ _. e))
              (λ _.
                Post-map (Unit {0}) (Owes id n) (Owes id n) (update_status indnum val s)
                  (propagate_indicator indnum val) (update_status-Owes id n indnum val s e)
                  (λ s' e'. propagate-Owes id n indnum val s' e'))))
