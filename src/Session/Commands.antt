-- ===== src/Session/Commands.antt =====
-- The queue of AT commands of libhfp/hfp.cpp: `SendCommand`, `StartCommand`, `AddCommand`,
-- `DeleteFirstCommand`, `PendingCommand`, `CancelCommand` and the `Cmd...` operations.
use nohands.Prelude.{
  is_empty, ℕ, Bool, true, false, not, ◌&&◌, ◌||◌, none, some, List, [], ◌∷◌, ◌++◌, ◌==◌, length,
  leb, if◌then◌else◌,
}
use nohands.Text.{Bytes, codes}
use nohands.Text.Decimal.{show_int}
use nohands.Faults.{assertion, null_pointer, dangling, Result, ok, fault, ◌>>=◌}
use nohands.CallSetup.{set_timer, cancel}
use nohands.Session.{
  Command, plain, generic, chld_test, brsf, cind_test, cind_read, cmer, clip_enable, ccwa_enable,
  cnum, cops, clcc, bvra, nrec, atd, clear_call_setup, AtCommand, aborted, sent, HfpSession,
  is_connected, is_rfcomm_connected, emit, tell,
}
use nohands.Session.Disconnect.{disconnect}

-- `m_command_text`
unfoldable pub command_text : Command → Bytes
command_text (plain text) = text
command_text (generic text res) = text
command_text chld_test = codes "AT+CHLD=?"
command_text (brsf caps res) = codes "AT+BRSF=" ++ show_int caps
command_text cind_test = codes "AT+CIND=?"
command_text cind_read = codes "AT+CIND?"
command_text cmer = codes "AT+CMER=3,0,0,1"
command_text clip_enable = codes "AT+CLIP=1"
command_text ccwa_enable = codes "AT+CCWA=1"
command_text (cnum res) = codes "AT+CNUM"
command_text (cops sent_fmt res) = codes "AT+COPS=3,0"
command_text (clcc results) = codes "AT+CLCC"
command_text (bvra enable) = if enable then codes "AT+BVRA=1" else codes "AT+BVRA=0"
command_text (nrec enable) = if enable then codes "AT+NREC=1" else codes "AT+NREC=0"
command_text (atd text) = text
command_text (clear_call_setup text) = text

-- The state and the value that the source returns.
abbrev returns : Bool → HfpSession → Result (HfpSession × Bool)
returns b s = ok (s, b)

-- `SendCommand`, which formats into 64 bytes of stack and allocates for more, with the `RfcommSend` that it ends in: a failed or short write disconnects.
unfoldable pub send_command : Bytes → HfpSession → Result (HfpSession × Bool)
send_command cmd s =
    if leb 63 (length cmd) && not s.memory_left
    then returns false s
    else if not (is_rfcomm_connected s)
    then returns false s
    else if s.socket_open
    then returns true (emit (sent (cmd ++ b'\r' ∷ [])) s)
    else (disconnect true s >>= returns false)

abbrev pub start_first : List AtCommand → HfpSession → Result (HfpSession × Bool)
start_first [] s = returns true s
start_first (c ∷ cs) s = do
  r ← send_command (command_text c.kind) s
  if r.1
      then (do
        t ← set_timer r.0.command_timer r.0.timeouts.command
        returns true (record r.0 { command_timer = t }))
      else returns false r.0

unfoldable pub start_command : HfpSession → Result (HfpSession × Bool)
unfolding send_command
start_command s = start_first s.commands s

-- Before the first command, or at the end; the queue that the source tests is not empty.
abbrev pub enqueue : Bool → AtCommand → List AtCommand → List AtCommand
enqueue top cmd [] = cmd ∷ []
enqueue top cmd (c ∷ cs) = if top then cmd ∷ c ∷ cs else c ∷ (cs ++ cmd ∷ [])

-- `AddCommand`. A command that is deleted for want of a connection tells its holder.
unfoldable pub add_command : AtCommand → Bool → HfpSession → Result (HfpSession × Bool)
unfolding start_command
add_command cmd top s =
    if not (is_rfcomm_connected s)
    then returns false (tell cmd.pend aborted s)
    else let s' = record s { commands = enqueue top cmd s.commands } in
      if not (is_empty s.commands) then returns true s' else start_command s'

unfoldable pub delete_first : List AtCommand → HfpSession → Result HfpSession
delete_first [] s = fault assertion
delete_first (c ∷ cs) s = do
  let s' = tell c.pend aborted (record s { commands = cs })
  t ← cancel s'.command_timer
  ok (record s' { command_timer = t })

abbrev pub start_next : Bool → HfpSession → Result HfpSession
start_next do_start s =
    if do_start && not (is_empty s.commands) then (start_command s >>= λ r. ok r.0) else ok s

-- `DeleteFirstCommand`; what `StartCommand` returns is dropped.
unfoldable pub delete_first_command : Bool → HfpSession → Result HfpSession
unfolding delete_first start_command
delete_first_command do_start s = do s' ← delete_first s.commands s; start_next do_start s'

abbrev holds_pending : ℕ → List AtCommand → Bool
holds_pending id [] = false
holds_pending id (c ∷ cs) = elim c.pend [ none ↦ false | some j ↦ j == id ] || holds_pending id cs

-- `Unlink`: the command that stays in the queue forgets its pending command.
unlink : ℕ → List AtCommand → List AtCommand
unlink id [] = []
unlink id (c ∷ cs) =
    let rest = unlink id cs in
    if elim c.pend [ none ↦ false | some j ↦ j == id ]
    then record c { pend = none } ∷ cs
    else c ∷ rest

-- `PendingCommand`, which numbers the pending command `id`. After a failed `AddCommand` it deletes the
-- pending command, which unlinks itself from a command that is still in the queue. One that is there no
-- more has been deleted by `AddCommand`: its destructor calls the pending command back, whose callback
-- nobody can have registered yet, so the call goes through a null pointer, and the run ends before the
-- pending command is deleted. The event that `tell` records then has no run behind it.
unfoldable pub pending_command : Command → ℕ → HfpSession → Result (HfpSession × Bool)
unfolding add_command unlink
pending_command kind id s = if not (is_connected s) then returns false s else (do
  r ← add_command (record { kind = kind; pend = some id }) false s
  if r.1
      then returns true r.0
      else if holds_pending id r.0.commands
      then returns false (record r.0 { commands = unlink id r.0.commands })
      else fault null_pointer)

remove_pending : ℕ → List AtCommand → List AtCommand
remove_pending id [] = []
remove_pending id (c ∷ cs) =
    if elim c.pend [ none ↦ false | some j ↦ j == id ] then cs else c ∷ remove_pending id cs

cancel_in : ℕ → HfpSession → List AtCommand → Result (HfpSession × Bool)
unfolding remove_pending
cancel_in id s [] = fault dangling
cancel_in id s (c ∷ cs) =
    if holds_pending id (c ∷ [])
    then returns false s
    else if holds_pending id cs
    then returns true (tell (some id) aborted (record s { commands = c ∷ remove_pending id cs }))
    else fault dangling

-- `Cancel` of the pending command `id`, and `CancelCommand`: the first command stays. The source
-- follows `m_cmd`, which dangles once the command has left the queue.
unfoldable pub cancel_command : ℕ → HfpSession → Result (HfpSession × Bool)
unfolding cancel_in
cancel_command id s = cancel_in id s s.commands
