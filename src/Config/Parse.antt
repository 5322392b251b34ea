-- ===== src/Config/Parse.antt =====
-- `ParseLine` of hfpd/configfile.cpp. Line numbers serve for messages only and
-- are left out, as the messages are.
use nohands.Prelude.{
  is_empty, ℕ, Bool, false, not, ◌||◌, Option, none, some, List, [], ◌∷◌, ◌==◌, length, get_elem?,
  set, if◌then◌else◌, ℤ, ◌==ℤ◌, ltb_ℤ,
}
use nohands.Text.{Bytes, skip_ws, trim_end, before, from, str_eq}
use nohands.Faults.{dangling, Result, ok, fault, ◌>>=◌, ◌>>◌, assert}
use nohands.Config.{
  Tuple, Section, Sections, create_section, create_tuple, find_tuple, delete_tuple,
}

-- The sections, and `cursec` by its place among them: sections are only added at the end.
pub record Context : Type 0 where
  pub secs : Sections
  pub cursec : Option ℕ

-- `[name]`; `strchr` finds the first close bracket.
unfoldable pub section_header : Bytes → Context → Result Context
section_header part ctx =
    if is_empty (from b']' part) || is_empty (before b']' part)
    then ok ctx
    else (create_section (before b']' part) ctx.secs >>= λ secs.
        ok (record { secs = secs; cursec = some (length ctx.secs) }))

-- A tuple of the same layer stays, and so does one of a higher layer or of the same value.
abbrev pub stays : ℤ → Bytes → Option Tuple → Bool
stays layer value none = false
stays layer value (some t) = t.layer ==ℤ layer || (ltb_ℤ layer t.layer || str_eq t.value value)

abbrev pub lowest_or : ℤ → Option Tuple → ℤ
lowest_or layer none = layer
lowest_or layer (some t) = t.lowest_layer

-- The tuples of the current section behind a line `key = value`.
unfoldable pub merge_tuple : ℤ → Bytes → Bytes → List Tuple → Result (List Tuple)
merge_tuple layer key value tups =
    let found = find_tuple key tups in
    if stays layer value found
    then ok tups
    else create_tuple
        (record { key = key; value = value; layer = layer; lowest_layer = lowest_or layer found })
        (delete_tuple key tups)

abbrev pub past_one : Bytes → Bytes
past_one [] = []
past_one (c ∷ s) = s

abbrev pub store_in : Option Section → ℕ → ℤ → Bytes → Bytes → Context → Result Context
store_in none i layer key value ctx = fault dangling
store_in (some sec) i layer key value ctx = merge_tuple layer key value sec.tuples >>= λ tups.
    ok (record ctx { secs = set ctx.secs i (record sec { tuples = tups }) })

-- No `=`, or nothing before it.
abbrev pub no_key : Bytes → Bool
no_key line = is_empty (from b'=' line) || is_empty (before b'=' line)

abbrev pub key_of : Bytes → Bytes
key_of line = trim_end (before b'=' line)

abbrev pub value_in : Bytes → Bytes
value_in line = trim_end (skip_ws (past_one (from b'=' line)))

-- A line that is neither a comment nor a header; `assert(kl)` is about the key.
unfoldable pub key_value : ℤ → Bytes → Option ℕ → Context → Result Context
unfolding merge_tuple
key_value layer line none ctx = ok ctx
key_value layer line (some i) ctx =
    if no_key line
    then ok ctx
    else (assert (not (is_empty (key_of line)))
        >> store_in (get_elem? ctx.secs i) i layer (key_of line) (value_in line) ctx)

-- `ParseLine`, which returns true as long as there is memory.
unfoldable pub parse_line : ℤ → Bytes → Context → Result Context
unfolding section_header key_value
parse_line layer [] ctx = key_value layer [] ctx.cursec ctx
parse_line layer (c ∷ line) ctx =
    if c == b'#'
    then ok ctx
    else if c == b'['
    then section_header (skip_ws line) ctx
    else key_value layer (c ∷ line) ctx.cursec ctx
