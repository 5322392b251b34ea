-- ===== src/Session/Client.antt =====
-- The operations that a client calls on a session: `ValidPhoneNumChar`, `ValidPhoneNum` and the
-- `Cmd...` methods of libhfp/hfp.cpp. Each hands an AT command to `PendingCommand`; `id` is the
-- number of the pending command that the client gets, and the flag is false where it gets null.
use nohands.Prelude.{
  ℕ, suc, ◌+◌, ◌<◌, ◌≤◌, ◌^◌, ◌%◌, ◌≡◌, ◌≢◌, Bool, true, false, not, ◌&&◌, ◌||◌, Option, none, some,
  [], ◌∷◌, ◌++◌, ◌==◌, leb, if◌then◌else◌, pos, length, All, arith, length-append,
}
use nohands.Text.{Bytes, codes}
use nohands.Text.Decimal.{show_int, show}
use nohands.Text.Strtol.{to_int}
use nohands.Faults.{Result, ok}
use nohands.Session.{
  plain, generic, cnum, cops, clcc, bvra, nrec, atd, clear_call_setup, HfpSession,
}
use nohands.Session.Commands.{pending_command}

-- The number of a pending command, and the session.
abbrev Cmd : Type 0
Cmd = ℕ → HfpSession → Result (HfpSession × Bool)

abbrev is_digit : ℕ → Bool
is_digit c = leb b'0' c && leb c b'9'

abbrev pub valid_phone_num_char : ℕ → Bool
valid_phone_num_char c = is_digit c || c == b'#' || c == b'*' || c == b'w' || c == b'W'

-- The loop of `ValidPhoneNum`; `PHONENUM_MAX_LEN` is 31.
unfoldable pub valid_rest : ℕ → Bytes → Bool
valid_rest len [] = true
valid_rest len (c ∷ ph) = valid_phone_num_char c && (leb (suc len) 31 && valid_rest (suc len) ph)

-- A leading `+` or `>` counts.
unfoldable pub valid_phone_num : Option Bytes → Bool
unfolding valid_rest
valid_phone_num none = false
valid_phone_num (some []) = true
valid_phone_num (some (c ∷ ph)) =
    if c == b'+' || c == b'>' then valid_rest 1 ph else valid_rest 0 (c ∷ ph)

abbrev pub atd_text : Bytes → Bytes
atd_text phnum = codes "ATD" ++ (phnum ++ codes ";")

abbrev text_of : Option Bytes → Bytes
text_of none = []
text_of (some s) = s

unfoldable pub cmd_dial : Option Bytes → Cmd
unfolding valid_phone_num
cmd_dial phnum id s =
    if not (valid_phone_num phnum)
    then ok (s, false)
    else pending_command (atd (atd_text (text_of phnum))) id s

unfoldable pub cmd_send_dtmf : ℕ → Cmd
cmd_send_dtmf code id s =
    if not (valid_phone_num_char code)
    then ok (s, false)
    else pending_command (plain (codes "AT+VTS=" ++ code ∷ [])) id s

unfoldable pub cmd_redial : Cmd
cmd_redial = pending_command (atd (codes "AT+BLDN"))

unfoldable pub cmd_query_number : Cmd
cmd_query_number = pending_command (cnum none)

unfoldable pub cmd_query_operator : Cmd
cmd_query_operator = pending_command (cops false none)

unfoldable pub cmd_query_current_calls : Cmd
cmd_query_current_calls = pending_command (clcc [])

unfoldable pub cmd_set_voice_recog : Bool → Cmd
cmd_set_voice_recog enabled = pending_command (bvra enabled)

unfoldable pub cmd_set_ecnr : Bool → Cmd
cmd_set_ecnr enabled = pending_command (nrec enabled)

-- `vol` is a `uint8_t`.
unfoldable pub cmd_set_volume_mic : ℕ → Cmd
cmd_set_volume_mic vol = pending_command (plain (codes "AT+VGM=" ++ show (vol % 2 ^ 8)))

-- The source sends AT+VGM here too.
unfoldable pub cmd_set_volume_speaker : ℕ → Cmd
cmd_set_volume_speaker vol = pending_command (plain (codes "AT+VGM=" ++ show (vol % 2 ^ 8)))

unfoldable pub cmd_answer : Cmd
cmd_answer = pending_command (clear_call_setup (codes "ATA"))

unfoldable pub cmd_hang_up : Cmd
cmd_hang_up = pending_command (clear_call_setup (codes "AT+CHUP"))

unfoldable pub cmd_call_drop_held_udub : Cmd
cmd_call_drop_held_udub = pending_command (clear_call_setup (codes "AT+CHLD=0"))

unfoldable pub cmd_call_swap_drop_active : Cmd
cmd_call_swap_drop_active = pending_command (plain (codes "AT+CHLD=1"))

-- `%d` prints the `unsigned int` as an `int`.
unfoldable pub cmd_call_drop_index : ℕ → Cmd
cmd_call_drop_index actnum =
    pending_command (plain (codes "AT+CHLD=1" ++ show_int (to_int (pos actnum))))

unfoldable pub cmd_call_swap_hold_active : Cmd
cmd_call_swap_hold_active = pending_command (plain (codes "AT+CHLD=2"))

unfoldable pub cmd_call_private_consult : ℕ → Cmd
cmd_call_private_consult callnum =
    pending_command (plain (codes "AT+CHLD=2" ++ show_int (to_int (pos callnum))))

unfoldable pub cmd_call_link : Cmd
cmd_call_link = pending_command (plain (codes "AT+CHLD=3"))

unfoldable pub cmd_call_transfer : Cmd
cmd_call_transfer = pending_command (plain (codes "AT+CHLD=4"))

unfoldable pub cmd_generic_at_command : Bytes → Cmd
cmd_generic_at_command at_cmd = pending_command (generic at_cmd none)

-- A byte that neither ends a command line nor the dialled number.
abbrev pub IsPlain : ℕ → Type 0
IsPlain c = (c ≢ b'\r') × (c ≢ b'\n') × (c ≢ b';')

valid_rest-IsPlain :
    (len : ℕ) (ph : Bytes)
    → len ≤ 31
    → valid_rest len ph ≡ true
    → All IsPlain ph × (len + length ph ≤ 31)
unfolding valid_rest
valid_rest-IsPlain len [] l h = (tt, omega arith)
valid_rest-IsPlain len (c ∷ ph) l h = ground (arith, valid_rest-IsPlain (suc len) ph)

-- A number that passes the test fits, as ATD command with the NUL behind it, the 64 bytes that it
-- is formatted into, and none of its bytes ends the command or the line.
pub valid_phone_num-IsPlain :
    (ph : Bytes) → valid_phone_num (some ph) ≡ true → All IsPlain ph × (length (atd_text ph) < 64)
unfolding valid_phone_num valid_rest
valid_phone_num-IsPlain [] h = (tt, omega arith)
valid_phone_num-IsPlain (c ∷ ph) h = ground (
  arith,
  valid_rest-IsPlain 1 ph (omega arith),
  valid_rest-IsPlain 0 (c ∷ ph) (omega arith),
  length-append ph (codes ";"),
)
