-- ===== src/Session/Indicators.antt =====
-- The indicators of the audio gateway: `SetIndicatorNum`, `ExpandIndicators`, `UpdateIndicator` and
-- `SetSupportedFeatures` of libhfp/hfp.cpp. An `int` that indexes `m_inum_names` and is negative is
-- an access out of bounds; the callers of `SetIndicatorNum` count from 1.
use nohands.Prelude.{
  ℕ, ◌+◌, ◌-◌, ◌*◌, ◌/◌, ◌%◌, ◌^◌, Bool, true, false, not, ◌&&◌, ◌||◌, Option, none, some, List, [],
  ◌∷◌, ◌++◌, ◌==◌, if◌then◌else◌, ltb, leb, ℤ, pos, negsuc, ◌==ℤ◌, pos_part, neg_part, length,
  get_elem?, set, replicate, map,
}
use nohands.Text.{Bytes, codes, str_case_eq, to_lower}
use nohands.Text.Strtol.{strtol_int}
use nohands.Faults.{Result, ok, ◌>>=◌, ◌>>◌, assert}
use nohands.CallSetup.{cancel_if, no_updates}
use nohands.Session.{
  HfpSession, Inums, ConnState, rfcomm_connecting, handshaking, is_connected, emit, notify_call,
  notify_indicator,
}
use nohands.Session.Disconnect.{update_call}

-- Room for at least `min_size` names, at least twice the old room.
unfoldable pub expand_indicators : ℕ → List (Option Bytes) → List (Option Bytes)
expand_indicators min_size names =
    let doubled = if length names == 0 then 8 else length names * 2 in
    let new_size = if ltb doubled min_size then min_size else doubled in
    names ++ replicate (new_size - length names) none

abbrev name_at : List (Option Bytes) → ℕ → Option Bytes
name_at names i = elim (get_elem? names i) [ none ↦ none | some name ↦ name ]

-- Which member the name of an indicator goes to, and whether clients are to hear of it.
note_inum : ℕ → Bytes → Inums → Inums × Bool
note_inum indnum name n =
    if str_case_eq (codes "service") name
    then (record n { service = pos indnum }, true)
    else if str_case_eq (codes "call") name
    then (record n { call = pos indnum }, false)
    else if str_case_eq (codes "callsetup") name || str_case_eq (codes "call_setup") name
    then (if n.callsetup ==ℤ pos 0 then record n { callsetup = pos indnum } else n, false)
    else if str_case_eq (codes "callheld") name
    then (record n { callheld = pos indnum }, true)
    else if str_case_eq (codes "signal") name
    then (record n { signal = pos indnum }, true)
    else if str_case_eq (codes "roam") name
    then (record n { roam = pos indnum }, true)
    else if str_case_eq (codes "battchg") name
    then (record n { battchg = pos indnum }, true)
    else (n, true)

abbrev has_name : Option Bytes → Bool
has_name none = false
has_name (some name) = true

abbrev is_nil : Bytes → Bool
is_nil [] = true
is_nil (c ∷ cs) = false

-- `SetIndicatorNum`: the first name of an indicator is kept, in lower case.
unfoldable pub set_indicator_num : ℕ → Bytes → Inums → Inums
unfolding note_inum expand_indicators
set_indicator_num indnum name n =
    let (n', propagate) = note_inum indnum name n in
    let names =
      if leb (length n'.names) indnum then expand_indicators (indnum + 1) n'.names else n'.names in
    record n' {
      names =
          if propagate && not (is_nil name) && not (has_name (name_at names indnum))
          then set names indnum (some (map to_lower name))
          else names;
    }

-- The indicator `call`.
unfoldable pub update_call_indicator : ℤ → HfpSession → Result HfpSession
update_call_indicator val s =
    let newstate = not (val ==ℤ pos 0) in
    if (newstate && s.call.state_call) || (not newstate && not s.call.state_call)
    then ok s
    else let s' =
        emit (notify_call (record no_updates { upd_ac = true }))
          (record s { call = record s.call { state_call = newstate } }) in
      if is_connected s' && newstate && s'.call.callsetup_presumed
      then update_call (pos 0) 0 none 0 s'
      else ok s'

-- The members that follow an indicator other than `call` and `callsetup`.
unfoldable pub update_status : ℤ → ℤ → HfpSession → Result HfpSession
update_status indnum val s =
    if indnum ==ℤ s.inums.service
    then (let s' = record s { status = record s.status { service = not (val ==ℤ pos 0) } } in
        if s'.status.service
        then ok s'
        else update_call (pos 0) 0 none 0 (record s' {
          call = record s'.call { state_call = false; timer = cancel_if s'.call.timer };
        }))
    else if indnum ==ℤ s.inums.signal
    then ok (record s { status = record s.status { signal = val } })
    else if indnum ==ℤ s.inums.roam
    then ok (record s { status = record s.status { roam = val } })
    else if indnum ==ℤ s.inums.battchg
    then ok (record s { status = record s.status { battchg = val } })
    else ok s

-- An indicator that is out of range or has no name is not passed on.
unfoldable pub propagate_indicator : ℤ → ℤ → HfpSession → HfpSession
propagate_indicator (negsuc n) val s = s
propagate_indicator (pos n) val s = elim (name_at s.inums.names n) [
  | none ↦ s
  | some name ↦ emit (notify_indicator name val) s
]

unfoldable pub update_indicator : ℤ → Bytes → HfpSession → Result HfpSession
unfolding update_call_indicator update_status propagate_indicator
update_indicator indnum buf s =
    let val = (strtol_int 0 buf).0 in
    if indnum ==ℤ pos 0 || not (is_connected s)
    then ok s
    else if indnum ==ℤ s.inums.call
    then update_call_indicator val s
    else if indnum ==ℤ s.inums.callsetup
    then (if not (val ==ℤ pos 1) then update_call val 0 none 0 s else ok s)
    else (do s' ← update_status indnum val s; ok (propagate_indicator indnum val s'))

-- Bit `k` of an `int`.
abbrev bit : ℤ → ℕ → Bool
bit z k = ((pos_part z + (2 ^ 32 - neg_part z)) / 2 ^ k) % 2 == 1

abbrev pub feature_three_way_calling : HfpSession → Bool
feature_three_way_calling s = bit s.brsf 0

abbrev pub feature_ecnr : HfpSession → Bool
feature_ecnr s = bit s.brsf 1

abbrev pub feature_in_band_ring_tone : HfpSession → Bool
feature_in_band_ring_tone s = bit s.brsf 3

abbrev is_connecting : ConnState → Bool
is_connecting rfcomm_connecting = true
is_connecting handshaking = true
is_connecting _ = false

unfoldable pub set_supported_features : ℤ → HfpSession → Result HfpSession
set_supported_features ag_features s = do
  assert (is_connecting s.conn_state)
  let s' = record s { brsf = ag_features }
  ok (record s' {
    status = record s'.status {
      bsir = if feature_in_band_ring_tone s' then true else s'.status.bsir;
      ecnr = if feature_ecnr s' then true else s'.status.ecnr;
    };
  })
