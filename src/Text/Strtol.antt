-- ===== src/Text/Strtol.antt =====
-- `strtol` of <stdlib.h>, for the bases 0 and 10 that the sources pass, and the conversion of its
-- 64-bit `long` to a 32-bit `int` where the result is assigned to one.
use nohands.Prelude.{
  ℕ, ◌+◌, ◌-◌, ◌*◌, ◌%◌, ◌^◌, Bool, true, false, ◌&&◌, ◌||◌, Option, none, some, List, [], ◌∷◌, ltb,
  leb, ◌==◌, if◌then◌else◌, ℤ, pos, negsuc, pos_part, neg_part, signed,
}

-- `isspace` in the C locale.
abbrev pub is_space : ℕ → Bool
is_space c = c == b' ' || leb 9 c && leb c 13

unfoldable pub skip_space : List ℕ → List ℕ
skip_space [] = []
skip_space (c ∷ cs) = if is_space c then skip_space cs else c ∷ cs

-- The value of a digit in the bases up to 36; 36 for any other byte.
abbrev pub digit_value : ℕ → ℕ
digit_value c =
    if leb b'0' c && leb c b'9'
    then c - b'0'
    else if leb b'a' c && leb c b'z'
    then c - 87
    else if leb b'A' c && leb c b'Z'
    then c - 55
    else 36

unfoldable pub scan_digits : ℕ → ℕ → List ℕ → ℕ × List ℕ
scan_digits base acc [] = (acc, [])
scan_digits base acc (c ∷ cs) =
    let rest = scan_digits base (acc * base + digit_value c) cs in
    if ltb (digit_value c) base then rest else (acc, c ∷ cs)

-- At least one digit.
abbrev pub some_digits : ℕ → List ℕ → Option (ℕ × List ℕ)
some_digits base [] = none
some_digits base (c ∷ cs) =
    if ltb (digit_value c) base then some (scan_digits base 0 (c ∷ cs)) else none

-- Base 0: `0x` before a hexadecimal digit, `0` for octal, else decimal.
unfoldable pub prefixed : List ℕ → Option (ℕ × List ℕ)
prefixed (zero_ch ∷ x ∷ d ∷ cs) =
    if zero_ch == b'0' && (x == b'x' || x == b'X') && ltb (digit_value d) 16
    then some (scan_digits 16 0 (d ∷ cs))
    else if zero_ch == b'0'
    then some_digits 8 (zero_ch ∷ x ∷ d ∷ cs)
    else some_digits 10 (zero_ch ∷ x ∷ d ∷ cs)
prefixed (zero_ch ∷ cs) =
    if zero_ch == b'0' then some_digits 8 (zero_ch ∷ cs) else some_digits 10 (zero_ch ∷ cs)
prefixed [] = none

-- LONG_MIN and LONG_MAX bound the result.
abbrev pub clamp_long : Bool → ℕ → ℤ
clamp_long false n = if ltb (2 ^ 63 - 1) n then pos (2 ^ 63 - 1) else pos n
clamp_long true n = if ltb (2 ^ 63) n then negsuc (2 ^ 63 - 1) else signed true n

abbrev pub finish : Bool → Option (ℕ × List ℕ) → Option (ℤ × List ℕ)
finish negative none = none
finish negative (some (n, rest)) = some (clamp_long negative n, rest)

abbrev pub magnitude : ℕ → List ℕ → Option (ℕ × List ℕ)
magnitude base cs = if base == 0 then prefixed cs else some_digits base cs

abbrev pub after_space : ℕ → List ℕ → Option (ℤ × List ℕ)
after_space base [] = none
after_space base (c ∷ cs) =
    if c == b'-'
    then finish true (magnitude base cs)
    else if c == b'+'
    then finish false (magnitude base cs)
    else finish false (magnitude base (c ∷ cs))

-- The value and the end pointer; `none` where no number stands, when `strtol` returns 0 and sets
-- the end pointer to the start.
unfoldable pub strtol? : ℕ → List ℕ → Option (ℤ × List ℕ)
unfolding skip_space scan_digits prefixed
strtol? base s = after_space base (skip_space s)

-- The implementation-defined conversion of `long` to a 32-bit `int`: the low 32 bits.
unfoldable pub to_int : ℤ → ℤ
to_int z =
    let m = (pos_part z + (2 ^ 32 - neg_part z % 2 ^ 32)) % 2 ^ 32 in
    if ltb m (2 ^ 31) then pos m else negsuc (2 ^ 32 - m - 1)

-- `int v = strtol(s, &end, base)`: the value and the end pointer.
unfoldable pub strtol_int : ℕ → List ℕ → ℤ × List ℕ
unfolding strtol? to_int
strtol_int base s = elim (strtol? base s) [ none ↦ (pos 0, s) | some (z, rest) ↦ (to_int z, rest) ]
