-- ===== src/Session/SafeLines.antt =====
-- No line that the audio gateway sends by itself makes `ResponseDefault` of libhfp/hfp.cpp fail an
-- assertion or break the invariant of the session.
use nohands.Prelude.{◌≡◌, true, ◌||◌, none, [], ◌∷◌, ℤ, pos, arith}
use nohands.Text.{Bytes, skip_ws}
use nohands.Text.Strtol.{strtol_int}
use nohands.Gsm.{parse_clip, parse_ccwa}
use nohands.Faults.Post.{Holds, Post-if}
use nohands.Session.{HfpSession, is_connected, Event, emit}
use nohands.Session.Invariant.{SessionInv, update_call-SessionInv}
use nohands.Session.Unsolicited.{
  Unsolicited, ciev, clip_line, ccwa_line, bvra_line, vgm_line, vgs_line, bsir_line, ring_line,
  unknown_line, is_ciev, respond_ciev, ciev_number, ciev_value, respond_bvra, respond_vgm,
  respond_vgs, respond_bsir, respond, classify, response_default,
}
use nohands.Session.Safe.{Legal-one, update_indicator-SessionInv}

emit-SessionInv : (e : Event) (s : HfpSession) → SessionInv s → SessionInv (emit e s)
emit-SessionInv e s v = record {
  call_inv = v.call_inv;
  command_timer = v.command_timer;
  channel = v.channel;
  incomplete = v.incomplete;
}

ciev_value-SessionInv :
    (indnum : ℤ) (buf : Bytes) (s : HfpSession)
    → SessionInv s
    → Holds SessionInv (ciev_value indnum buf s)
unfolding ciev_value
ciev_value-SessionInv indnum [] s v = v
ciev_value-SessionInv indnum (x ∷ []) s v = v
ciev_value-SessionInv indnum (x ∷ c ∷ buf) s v = update_indicator-SessionInv indnum (c ∷ buf) s v

ciev_number-SessionInv :
    (buf : Bytes) (s : HfpSession) → SessionInv s → Holds SessionInv (ciev_number buf s)
unfolding ciev_number
ciev_number-SessionInv [] s v = v
ciev_number-SessionInv (c ∷ buf) s v = ciev_value-SessionInv (strtol_int 0 (c ∷ buf)).0 _ s v

respond_ciev-SessionInv :
    (buf : Bytes) (s : HfpSession) → SessionInv s → Holds SessionInv (respond_ciev buf s)
unfolding respond_ciev
respond_ciev-SessionInv buf s v = ciev_number-SessionInv (skip_ws buf) s v

respond_bvra-SessionInv :
    (buf : Bytes) (s : HfpSession) → SessionInv s → SessionInv (respond_bvra buf s)
unfolding respond_bvra
respond_bvra-SessionInv buf s v = ground arith

respond_vgm-SessionInv :
    (buf : Bytes) (s : HfpSession) → SessionInv s → SessionInv (respond_vgm buf s)
unfolding respond_vgm
respond_vgm-SessionInv buf s v = ground arith

respond_vgs-SessionInv :
    (buf : Bytes) (s : HfpSession) → SessionInv s → SessionInv (respond_vgs buf s)
unfolding respond_vgs
respond_vgs-SessionInv buf s v = ground arith

respond_bsir-SessionInv :
    (buf : Bytes) (s : HfpSession) → SessionInv s → SessionInv (respond_bsir buf s)
unfolding respond_bsir
respond_bsir-SessionInv buf s v = ground arith

respond-SessionInv :
    (line : Unsolicited) (s : HfpSession)
    → (is_ciev line || is_connected s) ≡ true
    → SessionInv s
    → Holds SessionInv (respond line s)
unfolding respond
respond-SessionInv (ciev buf) s h v = respond_ciev-SessionInv buf s v
respond-SessionInv ring_line s h v =
    update_call-SessionInv (pos 1) 1 none s.timeouts.ring s (Legal-one _ _ _) h v
respond-SessionInv (clip_line buf) s h v =
    update_call-SessionInv (pos 1) 0 (parse_clip buf) s.timeouts.ring s (Legal-one _ _ _) h v
respond-SessionInv (ccwa_line buf) s h v =
    update_call-SessionInv (pos 1) 2 (parse_ccwa buf) s.timeouts.ring_ccwa s (Legal-one _ _ _) h v
respond-SessionInv (bvra_line buf) s h v = respond_bvra-SessionInv buf s v
respond-SessionInv (vgm_line buf) s h v = respond_vgm-SessionInv buf s v
respond-SessionInv (vgs_line buf) s h v = respond_vgs-SessionInv buf s v
respond-SessionInv (bsir_line buf) s h v = respond_bsir-SessionInv buf s v
respond-SessionInv unknown_line s h v = v

-- Whatever line the audio gateway sends, in whatever state of a session that keeps the invariant,
-- ResponseDefault fails no assertion, uses no null timer, and keeps the invariant.
pub response_default-SessionInv :
    (buf : Bytes) (s : HfpSession) → SessionInv s → Holds SessionInv (response_default buf s)
unfolding response_default
response_default-SessionInv buf s v =
    Post-if ⊥ SessionInv (is_ciev (classify buf) || is_connected s) _ _
      (λ h. respond-SessionInv (classify buf) s h v) (λ _. v)
