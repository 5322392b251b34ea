-- ===== src/Session/Replies.antt =====
-- The replies to AT commands: `AtCommand::iResponse` and the `Response`, `OK` and `ERROR` methods of
-- the classes derived from AtCommand in libhfp/hfp.cpp. The object is the head of the queue; a
-- method that goes on after `__Disconnect` has emptied the queue uses a deleted object.
use mathlib.Core.Option
use nohands.Prelude.{
  ℕ, zero, suc, ◌+◌, Bool, true, false, not, ◌&&◌, Option, none, some, List, [], ◌∷◌, ◌++◌, ◌==◌,
  if◌then◌else◌, ℤ, pos, ◌==ℤ◌, ltb_ℤ, negsuc, length, drop,
}
use nohands.Text.{Bytes, codes, skip_ws, before, trim_end, strip_prefix, str_eq}
use nohands.Text.Strtol.{strtol_int}
use nohands.Gsm.{GsmCnumResult, GsmCopsResult, GsmClccResult, parse_cnum, parse_cops, parse_clcc}
use nohands.Faults.{dangling, Result, ok, fault, ◌>>=◌}
use nohands.Session.{
  Command, generic, chld_test, brsf, cind_test, cind_read, cmer, clip_enable, ccwa_enable, cnum,
  cops, clcc, bvra, nrec, atd, clear_call_setup, AtCommand, Reply, success, generic_result,
  cnum_result, cops_result, clcc_results, rejected, unacceptable, send_failed, HfpSession, Inums,
  tell,
}
use nohands.Session.Disconnect.{disconnect, update_call}
use nohands.Session.Commands.{send_command, add_command}
use nohands.Session.Indicators.{
  set_indicator_num, update_indicator, set_supported_features, feature_three_way_calling,
}
use nohands.Session.Hold.{set_supported_hold_modes}
use nohands.Session.Unsolicited.{set_bvra}

-- `CompletePending`, and a new value for a member of the object.
unfoldable pub complete_in : Reply → HfpSession → List AtCommand → Result HfpSession
complete_in reply s [] = fault dangling
complete_in reply s (c ∷ cs) =
    ok (tell c.pend reply (record s { commands = record c { pend = none } ∷ cs }))

unfoldable pub complete_pending : Reply → HfpSession → Result HfpSession
unfolding complete_in
complete_pending reply s = complete_in reply s s.commands

unfoldable pub store_in : Command → HfpSession → List AtCommand → Result HfpSession
store_in kind s [] = fault dangling
store_in kind s (c ∷ cs) = ok (record s { commands = record c { kind = kind } ∷ cs })

unfoldable pub store : Command → HfpSession → Result HfpSession
unfolding store_in
store kind s = store_in kind s s.commands

inc : ℤ → ℤ
inc (pos n) = pos (suc n)
inc (negsuc zero) = pos 0
inc (negsuc (suc n)) = negsuc n

dec : ℤ → ℤ
dec (pos zero) = negsuc 0
dec (pos (suc n)) = pos n
dec (negsuc n) = negsuc (suc n)

-- The loop of `CindTCommand::Response` over the indicator types. The source runs ahead to the close
-- quote of a name; here `name` is the name read so far, and a name without a close quote ends the
-- loop with nothing noted.
unfoldable pub cind_types : Option Bytes → ℤ → ℕ → Bytes → Inums → Inums
unfolding inc dec
cind_types name parens indnum [] n = n
cind_types (some name) parens indnum (c ∷ buf) n = elim (c == b'"') [
  | true ↦ cind_types none parens indnum buf (set_indicator_num indnum name n)
  | false ↦ cind_types (some (name ++ c ∷ [])) parens indnum buf n
]
cind_types none parens indnum (c ∷ []) n = n
cind_types none parens indnum (c ∷ d ∷ buf) n =
    elim (c == b'(' && inc parens ==ℤ pos 1 && d == b'"') [
      | true ↦ cind_types (some []) (inc parens) indnum buf n
      | false ↦
          let parens' =
            if c == b'(' then inc parens else if c == b')' then dec parens else parens in
          let comma = not (c == b'(') && not (c == b')') && parens ==ℤ pos 0 && c == b',' in
          cind_types none parens' (if comma then suc indnum else indnum) (d ∷ buf) n
    ]

-- The loop of `CindRCommand::Response`: the values, as `UpdateIndicator` gets them. Behind a value
-- the source goes on after its last byte that is no white space, and skips a comma only there.
unfoldable pub past_value : Bytes → Bytes
past_value [] = []
past_value (c ∷ buf) = if c == b',' then buf else c ∷ buf

unfoldable pub cind_values : ℕ → Bytes → Option (List Bytes)
unfolding past_value
cind_values zero buf = none
cind_values (suc fuel) [] = some []
cind_values (suc fuel) (c ∷ buf) =
    let here = skip_ws (c ∷ buf) in
    let value = trim_end (before b',' here) in
    Option.map (λ vs. value ∷ vs) (cind_values fuel (past_value (drop (length value) here)))

-- `GetSession()` follows a member of the object.
abbrev pub alive : List AtCommand → Result HfpSession → Result HfpSession
alive [] m = fault dangling
alive (c ∷ cs) m = m

unfoldable pub update_each : ℕ → List Bytes → HfpSession → Result HfpSession
update_each indnum [] s = ok s
update_each indnum (v ∷ vs) s =
    alive s.commands (update_indicator (pos indnum) v s >>= update_each (indnum + 1) vs)

unfoldable pub when_some {ℓ} :
    {A : Type ℓ} → Option A → HfpSession → (A → Result HfpSession) → Result HfpSession
when_some none s act = ok s
when_some (some a) s act = act a

unfoldable pub cind_read_response : Bytes → HfpSession → Result HfpSession
unfolding update_each when_some
cind_read_response buf s =
    when_some (cind_values (suc (length buf)) buf) s (λ values. update_each 1 values s)

abbrev pub add_result : List GsmClccResult → Option GsmClccResult → List GsmClccResult
add_result results none = results
add_result results (some r) = results ++ r ∷ []

-- `Response`, which returns false in every class.
unfoldable pub response : Command → Bytes → HfpSession → Result HfpSession
unfolding store cind_read_response when_some
response (generic text res) buf s = store (generic text (some buf)) s
response chld_test buf s =
    when_some (strip_prefix (codes "+CHLD:") buf) s
      (λ rest. set_supported_hold_modes (skip_ws rest) s)
response (brsf caps res) buf s =
    when_some (strip_prefix (codes "+BRSF:") buf) s
      (λ rest. store (brsf caps (strtol_int 0 (skip_ws rest)).0) s)
response cind_test buf s =
    when_some (strip_prefix (codes "+CIND:") buf) s
      (λ rest. ok (record s { inums = cind_types none (pos 0) 1 (skip_ws rest) s.inums }))
response cind_read buf s =
    when_some (strip_prefix (codes "+CIND:") buf) s (λ rest. cind_read_response rest s)
response (cnum res) buf s =
    when_some (strip_prefix (codes "+CNUM:") buf) s (λ rest. store (cnum (parse_cnum rest)) s)
response (cops sent_fmt res) buf s =
    if not sent_fmt
    then ok s
    else when_some (strip_prefix (codes "+COPS:") buf) s
        (λ rest. store (cops sent_fmt (parse_cops rest)) s)
response (clcc results) buf s =
    when_some (strip_prefix (codes "+CLCC:") buf) s
      (λ rest. store (clcc (add_result results (parse_clcc rest))) s)
response _ buf s = ok s

-- The method `OK` of the base class.
unfoldable pub base_ok : Reply → HfpSession → Result (HfpSession × Bool)
unfolding complete_pending
base_ok reply s = complete_pending reply s >>= λ s'. ok (s', true)

unfoldable pub has_connecting_call : HfpSession → Bool
has_connecting_call s = ltb_ℤ (pos 1) s.call.state_callsetup && not s.call.state_call

abbrev cnum_reply : Option GsmCnumResult → Reply
cnum_reply none = unacceptable
cnum_reply (some r) = cnum_result r

abbrev cops_reply : Option GsmCopsResult → Reply
cops_reply none = unacceptable
cops_reply (some r) = cops_result r

abbrev generic_reply : Option Bytes → Reply
generic_reply none = success
generic_reply (some r) = generic_result r

-- Behind the first stage of the operator query; `m_res` is not touched by it.
unfoldable pub cops_next : Option GsmCopsResult → HfpSession × Bool → Result (HfpSession × Bool)
cops_next res r =
    (if r.1 then store (cops true res) r.0 else complete_pending send_failed r.0) >>= λ s'.
    ok (s', false)

-- `OK`: whether the command is done with.
unfoldable pub ok_reply : Command → HfpSession → Result (HfpSession × Bool)
unfolding base_ok has_connecting_call store cops_next
ok_reply (generic text res) s = base_ok (generic_reply res) s
ok_reply (brsf caps res) s = do
  s' ← set_supported_features res s
  r ←
      if feature_three_way_calling s'
      then add_command (record { kind = chld_test; pend = none }) false s'
      else ok (s', true)
  base_ok success r.0
ok_reply clip_enable s = base_ok success (record s { clip_enabled = true })
ok_reply ccwa_enable s = base_ok success (record s { ccwa_enabled = true })
ok_reply (cnum res) s = base_ok (cnum_reply res) s
ok_reply (cops sent_fmt res) s =
    if sent_fmt
    then base_ok (cops_reply res) s
    else (send_command (codes "AT+COPS?") s >>= cops_next res)
ok_reply (clcc results) s = base_ok (clcc_results results) s
ok_reply (bvra enable) s = base_ok success (set_bvra enable s)
ok_reply (nrec enable) s = base_ok success (record s { status = record s.status { ecnr = enable } })
ok_reply (atd text) s = do
  s' ← if has_connecting_call s then ok s else update_call (pos 2) 0 none s.timeouts.dial s
  base_ok success s'
ok_reply (clear_call_setup text) s = do s' ← update_call (pos 0) 0 none 0 s; base_ok success s'
ok_reply _ s = base_ok success s

-- `ERROR`
unfoldable pub error_reply : Command → HfpSession → Result HfpSession
unfolding complete_pending
error_reply cmer s = disconnect true s
error_reply _ s = complete_pending rejected s

-- `AtCommand::iResponse`
unfoldable pub i_response : Command → Bytes → HfpSession → Result (HfpSession × Bool)
i_response kind buf s =
    if str_eq buf (codes "OK")
    then ok_reply kind s
    else if str_eq buf (codes "ERROR")
    then (error_reply kind s >>= λ s'. ok (s', true))
    else (response kind buf s >>= λ s'. ok (s', false))
