-- ===== src/Config/Read.antt =====
-- `ReadLoop` and `ExtractLineLoop` of hfpd/configfile.cpp, and the file read byte by byte. How much
-- `read` gives each time is an argument, by what is left of the file. ExtractLineLoop also reads the
-- byte behind the data while it skips white space; that byte decides nothing.
use nohands.Prelude.{
  is_empty, ℕ, zero, suc, ◌+◌, ◌-◌, Bool, true, false, not, ◌&&◌, Option, none, some, [], ◌∷◌, ◌++◌,
  ◌==◌, leb, ltb, if◌then◌else◌, length, take, drop, ℤ,
}
use nohands.Text.{Bytes, before}
use nohands.Text.Lines.{is_blank, blanks, line_of, past_line}
use nohands.Faults.{out_of_fuel, Result, ok, fault, ◌>>=◌, ◌>>◌, assert}
use nohands.Config.{Sections}
use nohands.Config.Parse.{Context, parse_line}

-- `sizeof(buf)`
abbrev pub buf_size : ℕ
buf_size = 1024

-- `start`, and the `len` bytes of `buf` from there on; none if a line is too long.
abbrev pub Place : Type 0
Place = Option (ℕ × Bytes)

-- ParseLine of a string in the buffer, which ends at a NUL.
abbrev pub parse_string : ℤ → Bytes → Context → Result Context
parse_string layer s ctx = parse_line layer (before 0 s) ctx

-- ExtractLineLoop, whose buffer is never empty. `beyond` is what the buffer holds behind the data; the
-- last line has no NUL of its own.
unfoldable pub extract_line : ℤ → Bytes → Bool → ℕ → Bytes → Context → Result (Context × ℕ)
unfolding blanks line_of past_line
extract_line layer beyond last c s ctx = do
  assert (not (c == 0))
  if is_blank c
      then ok (ctx, suc (blanks s))
      else if not (is_empty (past_line s))
      then (do
        ctx' ← parse_string layer (c ∷ line_of s) ctx
        ok (ctx', suc (suc (length (line_of s)))))
      else if last
      then (do ctx' ← parse_string layer (c ∷ (s ++ beyond)) ctx; ok (ctx', 0))
      else ok (ctx, 0)

-- Nothing could be used up: a full buffer is compacted, or the line is too long for it.
abbrev pub stuck : ℕ → Bytes → Place
stuck start unread =
    if start + length unread == buf_size
    then (if start == 0 then none else some (0, unread))
    else some (start, unread)

-- What ReadLoop does with the number of bytes that ExtractLineLoop has used up.
abbrev pub consumed :
    (ℕ → Bytes → Context → Result (Context × Place))
    → ℕ
    → Bytes
    → Context × ℕ
    → Result (Context × Place)
consumed again start unread (ctx, cons) = elim (cons == 0) [
  | true ↦ ok (ctx, stuck start unread)
  | false ↦ do
    assert (leb cons (length unread))
    elim (cons == length unread) [
      | true ↦ ok (ctx, some (0, []))
      | false ↦ again (start + cons) (drop cons unread) ctx
    ]
]

-- The inner loop of ReadLoop; each round uses up a byte at least.
unfoldable pub consume : ℤ → ℕ → ℕ → Bytes → Context → Result (Context × Place)
unfolding extract_line
consume layer zero start unread ctx = fault out_of_fuel
consume layer (suc fuel) start [] ctx = ok (ctx, some (0, []))
consume layer (suc fuel) start (c ∷ s) ctx =
    extract_line layer [] false c s ctx
    >>= consumed (λ start' rest ctx'. consume layer fuel start' rest ctx') start (c ∷ s)

-- What `read` gives into `room` bytes: some of the file, if there is any left.
abbrev pub read_in : ℕ → ℕ → Bytes → Bytes
read_in n room text = take (if ltb n room then suc n else room) text

-- The last line, which has no line end.
abbrev pub last_line : ℤ → Bytes → Bytes → Context → Result Context
last_line layer beyond [] ctx = ok ctx
last_line layer beyond (c ∷ s) ctx = do r ← extract_line layer beyond true c s ctx; ok (r.0)

-- What follows on the inner loop, where the last read gave `got`.
abbrev pub after_consume :
    (ℕ → Bytes → Context → Result (Context × Bool))
    → ℤ
    → Bytes
    → Bytes
    → Context × Place
    → Result (Context × Bool)
after_consume again layer beyond got (ctx, none) = ok (ctx, false)
after_consume again layer beyond got (ctx, some (start, unread)) =
    elim (not (is_empty unread) && is_empty got) [
      | true ↦ do ctx' ← last_line layer beyond unread ctx; ok (ctx', true)
      | false ↦ again start unread ctx
    ]

-- One round, of a read that gave `got`.
abbrev pub read_round :
    (ℕ → Bytes → Context → Result (Context × Bool))
    → ℤ
    → Bytes
    → Bytes
    → ℕ
    → Bytes
    → Context
    → Result (Context × Bool)
read_round again layer beyond got start all ctx = elim (is_empty all) [
  | true ↦ ok (ctx, true)
  | false ↦ consume layer (suc (length all)) start all ctx >>= after_consume again layer beyond got
]

-- ReadLoop from a read on. The rounds of fuel are those of its outer loop.
unfoldable pub read_loop :
    ℤ → Bytes → (ℕ → Option ℕ) → ℕ → Bytes → ℕ → Bytes → Context → Result (Context × Bool)
unfolding consume
read_loop layer beyond sizes zero text start unread ctx = fault out_of_fuel
read_loop layer beyond sizes (suc fuel) text start unread ctx = elim (sizes (length text)) [
  | none ↦ ok (ctx, false)
  | some n ↦
      let got = read_in n (buf_size - (start + length unread)) text in
      read_round
        (λ start' rest ctx'.
          read_loop layer beyond sizes fuel (drop (length got) text) start' rest ctx')
        layer beyond got start (unread ++ got) ctx
]

-- ReadLoop.
unfoldable pub read_file : ℤ → Bytes → (ℕ → Option ℕ) → Bytes → Context → Result (Context × Bool)
unfolding read_loop
read_file layer beyond sizes text ctx = read_loop layer beyond sizes (length text + 2) text 0 [] ctx

-- Load of a file that holds `text`; `opened` is whether it can be opened, and `cursec` what the
-- context, which Load does not initialise, holds there.
unfoldable pub load :
    ℤ → Bool → Bytes → (ℕ → Option ℕ) → Bytes → Option ℕ → Sections → Result (Sections × Bool)
unfolding read_file
load layer opened beyond sizes text cursec secs = if not opened then ok (secs, false) else do
  (ctx, res) ← read_file layer beyond sizes text (record { secs = secs; cursec = cursec })
  ok (if res then ctx.secs else [], res)
