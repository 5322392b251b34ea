-- ===== src/Session/LinesOnce.antt =====
-- A whole line from the audio gateway, through `HfpConsume` of libhfp/hfp.cpp: what has become of the
-- callbacks of the pending commands behind it.
use nohands.Prelude.{
  is_empty, ℕ, ◌≡◌, refl, true, false, not, ◌&&◌, ◌||◌, none, List, [], ◌∷◌, ℤ, pos, arith,
}
use nohands.Text.{Bytes, skip_ws, from}
use nohands.Text.Strtol.{strtol_int}
use nohands.Gsm.{parse_clip, parse_ccwa}
use nohands.Faults.{ok, assert}
use nohands.Faults.Post.{IfOk, Post-bind, Post-if, Post-trivial, IfOk-at}
use nohands.Session.{cind_read, AtCommand, HfpSession, is_connected, is_rfcomm_connected, connected}
use nohands.Session.Unsolicited.{
  Unsolicited, ciev, clip_line, ccwa_line, bvra_line, vgm_line, vgs_line, bsir_line, ring_line,
  unknown_line, is_ciev, respond_ciev, ciev_number, ciev_value, respond_bvra, respond_vgm,
  respond_vgs, respond_bsir, respond, classify, response_default,
}
use nohands.Session.Replies.{i_response}
use nohands.Session.Lines.{consume_first, hfp_handshake_done, consume_line, is_handshaking, command}
use nohands.Session.Owed.{owed, Owes, OwesWith, disconnect-Owes, update_call-Owes}
use nohands.Session.Queue.{add_command-Owes, delete_first_command-Owes}
use nohands.Session.Once.{update_indicator-Owes}
use nohands.Session.Callbacks.{set_bvra-Owes}
use nohands.Session.CallbacksOnce.{i_response-Owes}

ciev_value-Owes :
    (id n : ℕ) (indnum : ℤ) (buf : Bytes) (s : HfpSession)
    → owed id s ≡ n
    → IfOk (Owes id n) (ciev_value indnum buf s)
unfolding ciev_value
ciev_value-Owes id n indnum (_ ∷ c ∷ buf) s e = update_indicator-Owes id n indnum (c ∷ buf) s e
ciev_value-Owes id n indnum (_ ∷ []) s e = e
ciev_value-Owes id n indnum [] s e = e

ciev_number-Owes :
    (id n : ℕ) (buf : Bytes) (s : HfpSession) → owed id s ≡ n → IfOk (Owes id n) (ciev_number buf s)
unfolding ciev_number
ciev_number-Owes id n [] s e = e
ciev_number-Owes id n (c ∷ buf) s e =
    let r = strtol_int 0 (c ∷ buf) in ciev_value-Owes id n r.0 (from b',' r.1) s e

bvra-Owes :
    (id n : ℕ) (buf : Bytes) (s : HfpSession) → owed id s ≡ n → owed id (respond_bvra buf s) ≡ n
unfolding respond_bvra
bvra-Owes id n buf s e = ground (arith, set_bvra-Owes id n true s e, set_bvra-Owes id n false s e)

vgm-Owes :
    (id n : ℕ) (buf : Bytes) (s : HfpSession) → owed id s ≡ n → owed id (respond_vgm buf s) ≡ n
unfolding respond_vgm
vgm-Owes id n buf s e = ground arith

vgs-Owes :
    (id n : ℕ) (buf : Bytes) (s : HfpSession) → owed id s ≡ n → owed id (respond_vgs buf s) ≡ n
unfolding respond_vgs
vgs-Owes id n buf s e = ground arith

bsir-Owes :
    (id n : ℕ) (buf : Bytes) (s : HfpSession) → owed id s ≡ n → owed id (respond_bsir buf s) ≡ n
unfolding respond_bsir
bsir-Owes id n buf s e = ground arith

respond-Owes :
    (id n : ℕ) (line : Unsolicited) (s : HfpSession)
    → owed id s ≡ n
    → IfOk (Owes id n) (respond line s)
unfolding respond respond_ciev
respond-Owes id n (ciev buf) s e = ciev_number-Owes id n (skip_ws buf) s e
respond-Owes id n ring_line s e = update_call-Owes id n (pos 1) 1 none s.timeouts.ring s e
respond-Owes id n (clip_line buf) s e =
    update_call-Owes id n (pos 1) 0 (parse_clip buf) s.timeouts.ring s e
respond-Owes id n (ccwa_line buf) s e =
    update_call-Owes id n (pos 1) 2 (parse_ccwa buf) s.timeouts.ring_ccwa s e
respond-Owes id n (bvra_line buf) s e = bvra-Owes id n buf s e
respond-Owes id n (vgm_line buf) s e = vgm-Owes id n buf s e
respond-Owes id n (vgs_line buf) s e = vgs-Owes id n buf s e
respond-Owes id n (bsir_line buf) s e = bsir-Owes id n buf s e
respond-Owes id n unknown_line s e = e

response_default-Owes :
    (id n : ℕ) (buf : Bytes) (s : HfpSession)
    → owed id s ≡ n
    → IfOk (Owes id n) (response_default buf s)
unfolding response_default
response_default-Owes id n buf s e =
    Post-if (Unit {0}) (Owes id n) (is_ciev (classify buf) || is_connected s) _ _
      (λ _. respond-Owes id n (classify buf) s e) (λ _. e)

consume_first-Owes :
    (id n : ℕ) (cs : List AtCommand) (buf : Bytes) (s : HfpSession)
    → owed id s ≡ n
    → IfOk (Owes id n) (consume_first cs buf s)
unfolding consume_first
consume_first-Owes id n [] buf s e = e
consume_first-Owes id n (c ∷ cs) buf s e =
    Post-bind (Unit {0}) (OwesWith id n) (Owes id n) (i_response c.kind buf s) _
      (i_response-Owes id n c.kind buf s e)
      (λ r e'.
        Post-if (Unit {0}) (Owes id n) r.1 _ _ (λ _. delete_first_command-Owes id n true r.0 e')
          (λ _. e'))

handshake_done-Owes :
    (id n : ℕ) (s : HfpSession) → owed id s ≡ n → IfOk (Owes id n) (hfp_handshake_done s)
unfolding hfp_handshake_done
handshake_done-Owes id n s e =
    Post-bind (Unit {0}) (λ _. Unit {0}) (Owes id n) (assert (is_handshaking s.conn_state)) _
      (Post-trivial (assert (is_handshaking s.conn_state)))
      (λ _ _.
        Post-bind (Unit {0}) (OwesWith id n) (Owes id n) _ _
          (add_command-Owes id n (command cind_read) false (record s { conn_state = connected })
            (omega arith))
          (λ r e'.
            Post-if (Unit {0}) (Owes id n) (not r.1) _ _ (λ _. disconnect-Owes id n true r.0 e')
              (λ _. ground arith)))

consumed-Owes :
    (id n : ℕ) (buf : Bytes) (s : HfpSession)
    → owed id s ≡ n
    → IfOk (Owes id n) (consume_line buf s)
unfolding consume_line
consumed-Owes id n buf s e =
    Post-bind (Unit {0}) (Owes id n) (Owes id n) (consume_first s.commands buf s) _
      (consume_first-Owes id n s.commands buf s e)
      (λ s1 e1.
        Post-bind (Unit {0}) (Owes id n) (Owes id n) _ _
          (Post-if (Unit {0}) (Owes id n) (is_rfcomm_connected s1) _ _
            (λ _. response_default-Owes id n buf s1 e1) (λ _. e1))
          (λ s2 e2.
            Post-if (Unit {0}) (Owes id n)
              (is_rfcomm_connected s2 && is_handshaking s2.conn_state && is_empty s2.commands) _ _
              (λ _. handshake_done-Owes id n s2 e2) (λ _. e2)))

-- Whatever line the audio gateway sends, and whichever of completion, rejection, a failed write or
-- a disconnection it leads to: if it is dealt with, the commands in the queue that a pending
-- command waits for and the callbacks that it has had are together as many as before.
pub consume_line-owed :
    (id : ℕ) (buf : Bytes) (s s' : HfpSession) → consume_line buf s ≡ ok s' → owed id s' ≡ owed id s
consume_line-owed id buf s s' e =
    IfOk-at (Owes id (owed id s)) (consume_line buf s) s' (consumed-Owes id (owed id s) buf s refl)
      e
