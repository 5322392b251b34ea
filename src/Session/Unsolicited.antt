-- ===== src/Session/Unsolicited.antt =====
-- `SetBvra` and `ResponseDefault` of libhfp/hfp.cpp: the lines that the audio gateway sends by
-- itself. A line is the bytes up to the NUL that the reader has put at its end.
use nohands.Prelude.{
  ℕ, Bool, true, false, not, ◌&&◌, ◌||◌, Option, none, some, [], ◌∷◌, if◌then◌else◌, ℤ, pos, ◌==ℤ◌,
  ltb_ℤ,
}
use nohands.Text.{Bytes, codes, skip_ws, from, strip_prefix}
use nohands.Text.Strtol.{strtol?, strtol_int, to_int}
use nohands.Gsm.{parse_clip, parse_ccwa}
use nohands.Faults.{Result, ok}
use nohands.Session.{
  HfpSession, is_connected, emit, notify_voice_recog, notify_volume, notify_in_band_ring_tone,
}
use nohands.Session.Disconnect.{update_call}
use nohands.Session.Indicators.{update_indicator}

unfoldable pub set_bvra : Bool → HfpSession → HfpSession
set_bvra active s =
    if (s.status.bvra && active) || (not s.status.bvra && not active)
    then s
    else emit (notify_voice_recog active) (record s { status = record s.status { bvra = active } })

-- The number behind the blanks; `none` where there is none or it exceeds `top`.
number_upto : ℕ → Bytes → Option ℤ
number_upto top buf = elim (strtol? 0 (skip_ws buf)) [
  | none ↦ none
  | some (z, end) ↦
      if ltb_ℤ (to_int z) (pos 0) || ltb_ℤ (pos top) (to_int z) then none else some (to_int z)
]

-- Behind the comma of +CIEV; at least one byte must stand there.
unfoldable pub ciev_value : ℤ → Bytes → HfpSession → Result HfpSession
ciev_value indnum (_ ∷ c ∷ buf) s = update_indicator indnum (c ∷ buf) s
ciev_value indnum _ s = ok s

unfoldable pub ciev_number : Bytes → HfpSession → Result HfpSession
ciev_number [] s = ok s
ciev_number (c ∷ buf) s = let r = strtol_int 0 (c ∷ buf) in ciev_value r.0 (from b',' r.1) s

unfoldable pub respond_ciev : Bytes → HfpSession → Result HfpSession
respond_ciev buf s = ciev_number (skip_ws buf) s

unfoldable pub respond_bvra : Bytes → HfpSession → HfpSession
unfolding set_bvra number_upto
respond_bvra buf s = elim (number_upto 1 buf) [ none ↦ s | some n ↦ set_bvra (n ==ℤ pos 1) s ]

unfoldable pub respond_vgm : Bytes → HfpSession → HfpSession
unfolding number_upto
respond_vgm buf s = elim (number_upto 15 buf) [
  | none ↦ s
  | some n ↦
      if s.status.vgm ==ℤ n
      then s
      else emit (notify_volume true false) (record s { status = record s.status { vgm = n } })
]

unfoldable pub respond_vgs : Bytes → HfpSession → HfpSession
unfolding number_upto
respond_vgs buf s = elim (number_upto 15 buf) [
  | none ↦ s
  | some n ↦
      if s.status.vgs ==ℤ n
      then s
      else emit (notify_volume false true) (record s { status = record s.status { vgs = n } })
]

-- `m_state_bsir != indnum` compares a bool, 0 or 1, with the number.
unfoldable pub respond_bsir : Bytes → HfpSession → HfpSession
unfolding number_upto
respond_bsir buf s = elim (number_upto 1 buf) [
  | none ↦ s
  | some n ↦
      if (if s.status.bsir then pos 1 else pos 0) ==ℤ n
      then s
      else emit (notify_in_band_ring_tone (n ==ℤ pos 1))
          (record s { status = record s.status { bsir = n ==ℤ pos 1 } })
]

-- The kinds of lines, in the order of the tests, with what follows the keyword.
pub data Unsolicited : Type 0 where
  ciev clip_line ccwa_line bvra_line vgm_line vgs_line bsir_line : Bytes → Unsolicited
  ring_line unknown_line : Unsolicited

abbrev or_else : Option Bytes → (Bytes → Unsolicited) → Unsolicited → Unsolicited
or_else none found rest = rest
or_else (some buf) found rest = found buf

unfoldable pub classify : Bytes → Unsolicited
classify buf = or_else (strip_prefix (codes "+CIEV:") buf) ciev (
    or_else (strip_prefix (codes "RING") buf) (λ _. ring_line)
      (or_else (strip_prefix (codes "+CLIP:") buf) clip_line (
        or_else (strip_prefix (codes "+CCWA:") buf) ccwa_line (
          or_else (strip_prefix (codes "+BVRA:") buf) bvra_line (
            or_else (strip_prefix (codes "+VGM:") buf) vgm_line (
              or_else (strip_prefix (codes "+VGM=") buf) vgm_line (
                or_else (strip_prefix (codes "+VGS:") buf) vgs_line (
                  or_else (strip_prefix (codes "+VGS=") buf) vgs_line
                    (or_else (strip_prefix (codes "+BSIR:") buf) bsir_line unknown_line)))))))))

-- What each kind of line does on a connected session.
unfoldable pub respond : Unsolicited → HfpSession → Result HfpSession
unfolding respond_ciev ciev_number ciev_value respond_bvra respond_vgm respond_vgs respond_bsir
respond (ciev buf) s = respond_ciev buf s
respond ring_line s = update_call (pos 1) 1 none s.timeouts.ring s
respond (clip_line buf) s = update_call (pos 1) 0 (parse_clip buf) s.timeouts.ring s
respond (ccwa_line buf) s = update_call (pos 1) 2 (parse_ccwa buf) s.timeouts.ring_ccwa s
respond (bvra_line buf) s = ok (respond_bvra buf s)
respond (vgm_line buf) s = ok (respond_vgm buf s)
respond (vgs_line buf) s = ok (respond_vgs buf s)
respond (bsir_line buf) s = ok (respond_bsir buf s)
respond unknown_line s = ok s

abbrev pub is_ciev : Unsolicited → Bool
is_ciev (ciev buf) = true
is_ciev _ = false

-- `ResponseDefault`: but for +CIEV, which tests it later, a line counts on a connected session only.
-- (Each keyword excludes the others, so a failed `IsConnected()` leads to no other branch.)
unfoldable pub response_default : Bytes → HfpSession → Result HfpSession
unfolding classify respond
response_default buf s =
    let line = classify buf in if is_ciev line || is_connected s then respond line s else ok s
