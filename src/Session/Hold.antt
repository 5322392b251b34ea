-- ===== src/Session/Hold.antt =====
-- `SetSupportedHoldRange` and `SetSupportedHoldModes` of libhfp/hfp.cpp, which read the answer to
-- AT+CHLD=?.
use nohands.Prelude.{
  Bool, true, ◌&&◌, Option, none, some, List, [], ◌∷◌, ◌++◌, ◌==◌, if◌then◌else◌, ℤ, pos, ◌==ℤ◌,
  leb_ℤ, reverse,
}
use nohands.Text.{Bytes, skip_ws, trim_end}
use nohands.Text.Strtol.{strtol_int}
use nohands.Session.{HoldModes, HfpSession, no_hold_modes}
use nohands.Session.Disconnect.{disconnect}
use nohands.Faults.{Result, ok}

within : ℤ → ℤ → ℤ → Bool
within start end n = leb_ℤ start n && leb_ℤ n end

unfoldable pub set_supported_hold_range : ℤ → ℤ → HoldModes → HoldModes
unfolding within
set_supported_hold_range start end m = record m {
  chld_0 = if within start end (pos 0) then true else m.chld_0;
  chld_1 = if within start end (pos 1) then true else m.chld_1;
  chld_2 = if within start end (pos 2) then true else m.chld_2;
  chld_3 = if within start end (pos 3) then true else m.chld_3;
  chld_4 = if within start end (pos 4) then true else m.chld_4;
}

abbrev add_token : Bytes → List Bytes → List Bytes
add_token [] rest = rest
add_token (c ∷ tok) rest = (c ∷ tok) ∷ rest

-- `strtok_r` with the delimiter `,`: the pieces that are not empty.
unfoldable pub tokens_onto : Bytes → Bytes → List Bytes
tokens_onto tok [] = add_token tok []
tokens_onto tok (c ∷ cs) =
    let rest = tokens_onto [] cs in
    let more = tokens_onto (tok ++ c ∷ []) cs in if c == b',' then add_token tok rest else more

-- Behind the dash; `none` is the jump to `parsefailed`.
hold_range : HoldModes → ℤ → ℤ × Bytes → Option HoldModes
hold_range m st (end, rex) = elim (skip_ws rex) [
  | [] ↦ if leb_ℤ end st then none else some (set_supported_hold_range st end m)
  | _ ∷ _ ↦ none
]

-- At the `x`, which stands for the index of a call; more behind it is ignored with it.
hold_index : HoldModes → ℤ → Bytes → HoldModes
hold_index m st (_ ∷ _) = m
hold_index m st [] =
    if st ==ℤ pos 1
    then record m { chld_1x = true }
    else if st ==ℤ pos 2
    then record m { chld_2x = true }
    else m

abbrev hold_end : HoldModes → ℤ → Bytes → Option HoldModes
hold_end m st [] = some (set_supported_hold_range st st m)
hold_end m st (c ∷ rend) =
    if c == b'-'
    then hold_range m st (strtol_int 10 rend)
    else if c == b'x'
    then some (hold_index m st rend)
    else some m

unfoldable pub hold_token : HoldModes → Bytes → Option HoldModes
unfolding hold_range hold_index
hold_token m tok = let r = strtol_int 10 (skip_ws tok) in hold_end m r.0 (skip_ws r.1)

-- The loop over the tokens; at one that does not parse it stops with what it has found.
unfoldable pub hold_tokens : HoldModes → List Bytes → HoldModes
unfolding hold_token
hold_tokens m [] = m
hold_tokens m (tok ∷ toks) = elim (hold_token m tok) [ none ↦ m | some m' ↦ hold_tokens m' toks ]

-- The text up to a close parenthesis that ends it, which is cut off.
abbrev cut_close : Bytes → Option Bytes
cut_close [] = none
cut_close (c ∷ rev) = if c == b')' then some (reverse rev) else none

abbrev hold_list : Option Bytes → HoldModes
hold_list none = no_hold_modes
hold_list (some modes) = hold_tokens no_hold_modes (tokens_onto [] modes)

abbrev hold_modes_of : Bytes → HoldModes
hold_modes_of [] = no_hold_modes
hold_modes_of (c ∷ modes) =
    if c == b'(' then hold_list (cut_close (reverse (trim_end modes))) else no_hold_modes

-- `SetSupportedHoldModes`; without memory for its copy it disconnects.
unfoldable pub set_supported_hold_modes : Bytes → HfpSession → Result HfpSession
unfolding hold_tokens tokens_onto set_supported_hold_range
set_supported_hold_modes hold_mode_list s =
    if s.memory_left
    then ok (record s { chld = hold_modes_of hold_mode_list })
    else disconnect true (record s { chld = no_hold_modes })
