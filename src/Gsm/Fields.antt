-- ===== src/Gsm/Fields.antt =====
-- `ParseGsmStringField` and `ParseGsmIntField` of libhfp/hfp.cpp. Each returns the advanced `buf`
-- and the field; `none` is the return value false. The NULs that the source writes into its buffer
-- stand where a field ends, behind which no later field reads.
use nohands.Prelude.{Option, none, some, [], ◌∷◌, ◌==◌, if◌then◌else◌, ℤ}
use nohands.Text.{Bytes, skip_ws, trim_end, before, from}
use nohands.Text.Strtol.{strtol?, to_int}

-- `if (!*xres) xres = 0;`
abbrev pub non_empty : Bytes → Option Bytes
non_empty [] = none
non_empty (c ∷ s) = some (c ∷ s)

-- Behind the close quote: up to the comma, and one past it.
abbrev pub past_comma : Bytes → Bytes
past_comma [] = []
past_comma (_ ∷ rest) = rest

-- The close quote was found or not; the white space before the comma does not reach into the field.
abbrev pub quoted : Bytes → Bytes → Option (Bytes × Option Bytes)
quoted field [] = none
quoted field (_ ∷ xbuf) = some (past_comma (from b',' xbuf), non_empty field)

-- With a comma the field ends there and is trimmed; without one it is the rest as it stands.
abbrev pub bare : Bytes → Bytes → Option (Bytes × Option Bytes)
bare xres [] = some ([], non_empty xres)
bare xres (_ ∷ rest) = some (rest, non_empty (trim_end (before b',' xres)))

abbrev pub string_field : Bytes → Option (Bytes × Option Bytes)
string_field [] = none
string_field (c ∷ xbuf) =
    if c == b'"'
    then quoted (before b'"' xbuf) (from b'"' xbuf)
    else bare (c ∷ xbuf) (from b',' (c ∷ xbuf))

unfoldable pub parse_gsm_string_field : Bytes → Option (Bytes × Option Bytes)
parse_gsm_string_field buf = string_field (skip_ws buf)

-- Behind the number: a comma is skipped, the end is accepted, and nothing else.
abbrev pub int_end : ℤ → Bytes → Option (Bytes × ℤ)
int_end value [] = some ([], value)
int_end value (c ∷ xbuf) = if c == b',' then some (xbuf, value) else none

-- Where no number stands, the field keeps its old value.
abbrev pub int_field : ℤ → Bytes → Option (Bytes × ℤ)
int_field old [] = none
int_field old (c ∷ xbuf) = elim (strtol? 10 (c ∷ xbuf)) [
  | none ↦ int_end old (skip_ws (c ∷ xbuf))
  | some (value, endp) ↦ int_end (to_int value) (skip_ws endp)
]

unfoldable pub parse_gsm_int_field : ℤ → Bytes → Option (Bytes × ℤ)
parse_gsm_int_field old buf = int_field old (skip_ws buf)
