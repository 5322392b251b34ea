-- ===== src/Session/Reader.antt =====
-- The reader of the RFCOMM channel: `HfpDataReady` and the framing in `HfpConsume` of
-- libhfp/hfp.cpp. `read` and its errors are what the system answers. The source also reads the byte
-- behind the data while it skips white space; that byte decides nothing.
use nohands.Prelude.{
  ℕ, zero, suc, ◌+◌, ◌-◌, Bool, true, not, ◌&&◌, Option, none, some, [], ◌∷◌, ◌++◌, ◌==◌, leb, ltb,
  if◌then◌else◌, length, drop,
}
use nohands.Text.{Bytes, before}
use nohands.Text.Lines.{is_blank, blanks, line_of, past_line}
use nohands.Faults.{assertion, Result, ok, fault, ◌>>=◌, ◌>>◌, assert}
use nohands.Session.{HfpSession, is_rfcomm_connected}
use nohands.Session.Disconnect.{disconnect}
use nohands.Session.Lines.{consume_line}

-- `m_rsp_start`, and the `m_rsp_len` bytes of `m_rsp_buf` from there on.
pub record Reader : Type 0 where
  pub start : ℕ
  pub rsp : Bytes

abbrev pub empty_reader : Reader
empty_reader = record { start = 0; rsp = [] }

-- `sizeof(m_rsp_buf)`
abbrev pub buf_size : ℕ
buf_size = 512

-- `assert(buf[len - 1])` where bytes follow the line end.
abbrev pub ends_well : Bytes → Bool
ends_well [] = true
ends_well (c ∷ []) = not (c == 0)
ends_well (c ∷ d ∷ buf) = ends_well (d ∷ buf)

-- The line `c ∷ line`; `rest` begins with its line end. A NUL that the device has sent ends the
-- string early.
unfoldable pub take_line : ℕ → Bytes → Bytes → HfpSession → Result (HfpSession × ℕ)
take_line c line [] s = ok (s, 0)
take_line c line (_ ∷ rest) s = do
  s' ← consume_line (before 0 (c ∷ line)) s
  assert (ends_well rest)
  ok (s', suc (suc (length line)))

-- `HfpConsume`: the session, and how many bytes are used up. The search for the line end begins at
-- the second byte; the first is none here. The source is called with at least one byte.
unfoldable pub hfp_consume : Bytes → HfpSession → Result (HfpSession × ℕ)
unfolding take_line blanks line_of past_line
hfp_consume [] s = fault assertion
hfp_consume (c ∷ buf) s =
    if c == 0
    then fault assertion
    else if is_blank c
    then ok (s, suc (blanks buf))
    else take_line c (line_of buf) (past_line buf) s

-- Nothing could be used up: a full buffer is compacted, or the line is too long for it.
unfoldable pub no_line : ℕ → Bytes → HfpSession → Result (HfpSession × Reader)
no_line start buf s =
    if start + length buf == buf_size
    then (if start == 0
        then (disconnect true s >>= λ s'. ok (s', empty_reader))
        else ok (s, record { start = 0; rsp = buf }))
    else ok (s, record { start = start; rsp = buf })

abbrev pub and_then {ℓ κ} :
    {A : Type ℓ} {B : Type κ} → Result A → (A → Option (Result B)) → Option (Result B)
and_then (ok a) f = f a
and_then (fault e) f = some (fault e)

-- The loop; `none` where the fuel does not suffice. `__Disconnect` empties the buffer.
unfoldable pub data_loop : ℕ → ℕ → Bytes → HfpSession → Option (Result (HfpSession × Reader))
data_loop zero start buf s = none
data_loop (suc fuel) start buf s = and_then (hfp_consume buf s) (λ r.
    let more = data_loop fuel (start + r.1) (drop (r.1) buf) (r.0) in
    if not (is_rfcomm_connected r.0)
    then some (ok (r.0, empty_reader))
    else if r.1 == 0
    then some (no_line start buf r.0)
    else if not (leb r.1 (length buf))
    then some (fault assertion)
    else if r.1 == length buf
    then some (ok (r.0, empty_reader))
    else more)

-- What `read` answers: an error, which `ReadErrorFatal` judges, the end of the stream, or bytes, at least one.
pub data ReadResult : Type 0 where
  read_error : Bool → ReadResult
  closed : ReadResult
  received : ℕ → Bytes → ReadResult

abbrev pub hung_up : HfpSession → Result (HfpSession × Reader)
hung_up s = disconnect true s >>= λ s'. ok (s', empty_reader)

-- `rounds` is the fuel of the loop.
abbrev pub received_in : ℕ → Reader → Bytes → HfpSession → Option (Result (HfpSession × Reader))
received_in rounds rd bytes s =
    if leb (length bytes) (buf_size - (rd.start + length rd.rsp))
    then data_loop rounds rd.start (rd.rsp ++ bytes) s
    else some (fault assertion)

abbrev pub answer : ℕ → ReadResult → Reader → HfpSession → Option (Result (HfpSession × Reader))
answer rounds (read_error fatal) rd s = some (if fatal then hung_up s else ok (s, rd))
answer rounds closed rd s = some (hung_up s)
answer rounds (received b bytes) rd s = received_in rounds rd (b ∷ bytes) s

-- `HfpDataReady`, with as many rounds of its loop as are allowed; `none` if it needs more.
unfoldable pub hfp_data_ready :
    ℕ → ReadResult → Reader → HfpSession → Option (Result (HfpSession × Reader))
unfolding data_loop
hfp_data_ready rounds r rd s =
    if not (is_rfcomm_connected s && ltb (rd.start + length rd.rsp) buf_size)
    then some (fault assertion)
    else answer rounds r rd s
