-- ===== src/Session/Queue.antt =====
-- The operations on the queue of AT commands of libhfp/hfp.cpp neither lose a callback nor make one
-- twice.
use nohands.Prelude.{
  is_empty, ℕ, suc, ◌+◌, ◌≡◌, Bool, true, false, not, ◌&&◌, some, List, [], ◌∷◌, ◌++◌, arith,
}
use nohands.Faults.{ok}
use nohands.Faults.Post.{IfOk, Post-bind, Post-map, Post-if}
use nohands.Session.{Command, AtCommand, HfpSession, aborted}
use nohands.Session.Commands.{
  send_command, start_command, start_first, command_text, add_command, enqueue, delete_first,
  delete_first_command, start_next, pending_command,
}
use nohands.Session.Owed.{
  pend_one, pend_count, done_count, owed, Owes, OwesWith, tell-done, send_command-Owes,
}

pend_count-append :
    (id : ℕ) (cs ds : List AtCommand)
    → pend_count id (cs ++ ds) ≡ pend_count id cs + pend_count id ds
pend_count-append id [] ds = omega arith
pend_count-append id (c ∷ cs) ds = omega (arith, pend_count-append id cs ds)

pend_count-enqueue :
    (id : ℕ) (top : Bool) (cmd : AtCommand) (cs : List AtCommand)
    → pend_count id (enqueue top cmd cs) ≡ pend_one id cmd.pend + pend_count id cs
pend_count-enqueue id top cmd [] = omega arith
pend_count-enqueue id true cmd (c ∷ cs) = omega arith
pend_count-enqueue id false cmd (c ∷ cs) = omega (arith, pend_count-append id cs (cmd ∷ []))

start_first-Owes :
    (id n : ℕ) (cs : List AtCommand) (s : HfpSession)
    → owed id s ≡ n
    → IfOk (OwesWith id n) (start_first cs s)
start_first-Owes id n [] s e = e
start_first-Owes id n (c ∷ cs) s e =
    Post-bind (Unit {0}) (OwesWith id n) (OwesWith id n) (send_command (command_text c.kind) s) _
      (send_command-Owes id n (command_text c.kind) s e) (λ r e'. ground arith)

start_command-Owes :
    (id n : ℕ) (s : HfpSession) → owed id s ≡ n → IfOk (OwesWith id n) (start_command s)
unfolding start_command
start_command-Owes id n s e = start_first-Owes id n s.commands s e

-- A command that is added is owed for, whether it is queued, refused or lost with the connection.
pub add_command-Owes :
    (id n : ℕ) (cmd : AtCommand) (top : Bool) (s : HfpSession)
    → pend_one id cmd.pend + owed id s ≡ n
    → IfOk (OwesWith id n) (add_command cmd top s)
unfolding add_command
add_command-Owes id n cmd top s e = ground (
  arith,
  tell-done id cmd.pend aborted s,
  pend_count-enqueue id top cmd s.commands,
  start_command-Owes id n (record s { commands = enqueue top cmd s.commands }),
)

delete_first-Owes :
    (id n : ℕ) (cs : List AtCommand) (s : HfpSession)
    → pend_count id cs + done_count id s.events ≡ n
    → IfOk (Owes id n) (delete_first cs s)
unfolding delete_first
delete_first-Owes id n [] s e = tt
delete_first-Owes id n (c ∷ cs) s e =
    ground (arith, tell-done id c.pend aborted (record s { commands = cs }))

start_next-Owes :
    (id n : ℕ) (do_start : Bool) (s : HfpSession)
    → owed id s ≡ n
    → IfOk (Owes id n) (start_next do_start s)
start_next-Owes id n do_start s e =
    Post-if (Unit {0}) (Owes id n) (do_start && not (is_empty s.commands)) _ _
      (λ _.
        Post-map (Unit {0}) (OwesWith id n) (Owes id n) (start_command s) (λ r. r.0)
          (start_command-Owes id n s e) (λ r e'. e'))
      (λ _. e)

pub delete_first_command-Owes :
    (id n : ℕ) (do_start : Bool) (s : HfpSession)
    → owed id s ≡ n
    → IfOk (Owes id n) (delete_first_command do_start s)
unfolding delete_first_command
delete_first_command-Owes id n do_start s e =
    Post-bind (Unit {0}) (Owes id n) (Owes id n) (delete_first s.commands s) (start_next do_start)
      (delete_first-Owes id n s.commands s e) (λ s' e'. start_next-Owes id n do_start s' e')

pend_one_self : (id : ℕ) → pend_one id (some id) ≡ 1
pend_one_self id = ground arith

-- A client that is handed a pending command is owed exactly one callback more.
pub pending_command-owed :
    (id : ℕ) (kind : Command) (s s' : HfpSession)
    → pending_command kind id s ≡ ok (s', true)
    → owed id s' ≡ suc (owed id s)
unfolding pending_command
pending_command-owed id kind s s' e = ground (
  arith,
  add_command-Owes id (suc (owed id s)) (record { kind = kind; pend = some id }) false s
      (omega (arith, pend_one_self id)),
)
