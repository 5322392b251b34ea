-- ===== src/Session/Dangling.antt =====
-- Runs of libhfp/hfp.cpp that end in a failed assertion, in a call through a null pointer or in the use
-- of a deleted object: the error reply to AT+CMER, and the failed writes of `PendingCommand` and `CopsCommand::OK`.
use nohands.Prelude.{
  is_empty, ℕ, ◌≡◌, refl, Bool, true, false, not, Option, some, List, [], ◌∷◌, if◌then◌else◌, arith,
}
use nohands.Text.{Bytes, codes, str_eq}
use nohands.Gsm.{GsmCopsResult}
use nohands.Faults.{assertion, null_pointer, dangling, Result, ok, fault, ◌>>=◌}
use nohands.Faults.Post.{Holds, Post-if}
use nohands.Session.{
  Command, cmer, cops, AtCommand, rfc_connected, HfpSession, is_rfcomm_connected, is_connected,
}
use nohands.Session.Disconnect.{disconnect}
use nohands.Session.Commands.{
  enqueue, start_first, command_text, send_command, start_command, add_command, delete_first,
  delete_first_command, pending_command,
}
use nohands.Session.Replies.{
  complete_in, complete_pending, cops_next, ok_reply, error_reply, i_response,
}
use nohands.Session.Lines.{consume_first, consume_line}
use nohands.Session.Invariant.{SessionInv, Gone, disconnect-Gone}

abbrev finished : HfpSession → Result (HfpSession × Bool)
finished s = ok (s, true)

emptied :
    (m : Result HfpSession)
    → Holds Gone m
    → (m >>= finished >>= λ r. if r.1 then delete_first_command true r.0 else ok r.0)
      ≡ fault assertion
unfolding delete_first_command delete_first
emptied (ok s) g = ground (arith, g.no_commands)
emptied (fault e) g = absurd g

stops {ℓ κ} :
    {A : Type ℓ} {B : Type κ} (m : Result A) (f : A → Result B)
    → m ≡ fault assertion
    → (m >>= f) ≡ fault assertion
stops m f e = rw e refl

first_fails :
    (s : HfpSession) (pend : Option ℕ) (cs all : List AtCommand)
    → SessionInv s
    → all ≡ record { kind = cmer; pend = pend } ∷ cs
    → consume_first all (codes "ERROR") s ≡ fault assertion
unfolding consume_first i_response error_reply str_eq
first_fails s pend cs all v q = rw q (emptied (disconnect true s) (disconnect-Gone true s v))

-- An ERROR to the AT+CMER at the head of the queue, on a session that keeps the invariant: the
-- handler disconnects, which deletes all commands, and the caller then fails the assertion that
-- the queue still holds the command.
pub rejected_cmer :
    (s : HfpSession) (pend : Option ℕ) (cs : List AtCommand)
    → SessionInv s
    → s.commands ≡ record { kind = cmer; pend = pend } ∷ cs
    → consume_line (codes "ERROR") s ≡ fault assertion
unfolding consume_line
rejected_cmer s pend cs v q = stops _ _ (first_fails s pend cs s.commands v q)

-- The write of a line fails: the session disconnects and the caller is told.
failed_write-Gone :
    (cmd : Bytes) (s : HfpSession)
    → SessionInv s
    → s.memory_left ≡ true
    → s.socket_open ≡ false
    → s.rfcomm_state ≡ rfc_connected
    → Holds (λ r. Gone r.0 × (r.1 ≡ false)) (send_command cmd s)
unfolding send_command
failed_write-Gone cmd s v m o r = ground (arith, disconnect-Gone true s v)

next_dangles :
    (res : Option GsmCopsResult) (m : Result (HfpSession × Bool))
    → Holds (λ r. Gone r.0 × (r.1 ≡ false)) m
    → (m >>= cops_next res) ≡ fault dangling
unfolding cops_next complete_pending complete_in
next_dangles res (ok r) h = ground (arith, h.0.no_commands)
next_dangles res (fault e) h = absurd h

-- On a session that keeps the invariant and has its channel, with memory left, the second stage of
-- the operator query cannot be written: the session has deleted the command on whose members the
-- handler then goes on.
pub unwritten_cops :
    (s : HfpSession) (res : Option GsmCopsResult)
    → SessionInv s
    → s.memory_left ≡ true
    → s.socket_open ≡ false
    → s.rfcomm_state ≡ rfc_connected
    → ok_reply (cops false res) s ≡ fault dangling
unfolding ok_reply
unwritten_cops s res v m o r =
    next_dangles res (send_command (codes "AT+COPS?") s)
      (failed_write-Gone (codes "AT+COPS?") s v m o r)

queued-SessionInv :
    (s : HfpSession) (cs : List AtCommand) → SessionInv s → SessionInv (record s { commands = cs })
queued-SessionInv s cs v = ground arith

unsent_first :
    (m : Result (HfpSession × Bool)) (f : HfpSession × Bool → Result (HfpSession × Bool))
    → Holds (λ r. Gone r.0 × (r.1 ≡ false)) m
    → Holds (λ r. Gone r.0 × (r.1 ≡ false)) (m >>= λ r. if r.1 then f r else ok (r.0, false))
unsent_first (ok r) f h = ground arith
unsent_first (fault e) f h = h

started :
    (cs : List AtCommand) (s : HfpSession)
    → SessionInv s
    → s.memory_left ≡ true
    → s.socket_open ≡ false
    → s.rfcomm_state ≡ rfc_connected
    → is_empty cs ≡ false
    → Holds (λ r. Gone r.0 × (r.1 ≡ false)) (start_first cs s)
started [] s v m o r h = cc
started (c ∷ cs) s v m o r h = unsent_first _ _ (failed_write-Gone (command_text c.kind) s v m o r)

unsent :
    (s : HfpSession) (cmd : AtCommand)
    → SessionInv s
    → s.memory_left ≡ true
    → s.socket_open ≡ false
    → s.rfcomm_state ≡ rfc_connected
    → s.commands ≡ []
    → Holds (λ r. Gone r.0 × (r.1 ≡ false)) (add_command cmd false s)
unfolding add_command start_command
unsent s cmd v m o r q =
    let P : HfpSession × Bool → Type 0 = λ r. Gone r.0 × (r.1 ≡ false) in
    Post-if ⊥ P (not (is_rfcomm_connected s)) _ _ (λ h. absurd (ground arith))
      (λ _.
        Post-if ⊥ P (not (is_empty s.commands)) _ _ (λ h. absurd (ground arith))
          (λ _.
            started (enqueue false cmd s.commands) _ (queued-SessionInv s _ v) m o r (rw q refl)))

-- A client's command on a connected session that keeps the invariant, with memory left and an
-- empty queue, whose first write fails: the AT command is deleted, and its destructor calls the
-- pending command back, whose callback nobody can have registered yet - a call through a null
-- pointer.
pub unwritten_command :
    (s : HfpSession) (kind : Command) (id : ℕ)
    → SessionInv s
    → is_connected s ≡ true
    → s.memory_left ≡ true
    → s.socket_open ≡ false
    → s.commands ≡ []
    → pending_command kind id s ≡ fault null_pointer
unfolding pending_command
unwritten_command s kind id v c m o q =
    ground (arith, unsent s (record { kind = kind; pend = some id }) v m o (v.channel c) q)
