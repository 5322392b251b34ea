-- ===== src/Config/Reopened.antt =====
-- A section header in `ParseLine` of hfpd/configfile.cpp for a section that exists already: the code
-- does not look for it.
use nohands.Prelude.{
  is_empty, ℕ, ◌≡◌, ◌≢◌, ◌∙◌, refl, ap, inl, inr, Bool, false, ◌||◌, ◌==◌, Bool-cases, some, List,
  [], ◌∷◌, ◌++◌, if◌then◌else◌, ℤ, arith, length,
}
use nohands.Text.{
  Bytes, Lacks, NoLead, is_ws, skip_ws, skip_ws_noop, before-append, from-append, str_eq→eq,
}
use nohands.Faults.{ok, ◌>>=◌}
use nohands.Config.{Tuple, Sections, create_section, find_section, find_tuple}
use nohands.Config.Lookup.{find_section-append_other}
use nohands.Config.Lines.{within, read_tuple, store-new}
use nohands.Config.Parsed.{key_there}
use nohands.Config.Parse.{Context, no_key, key_of, value_in, section_header, key_value, parse_line}

-- Whatever the tuples of the section added at the end, all names find what they found.
hidden :
    (name s : Bytes) (found tups : List Tuple) (secs : Sections)
    → find_section name secs ≡ some found
    → find_section s (secs ++ record { name = name; tuples = tups } ∷ []) ≡ find_section s secs
unfolding find_section
hidden name s found tups [] h = cc
hidden name s found tups (u ∷ secs) h = ground (
  arith,
  hidden name s found tups secs,
  str_eq→eq u.name name,
  find_section-append_other s secs (record { name = name; tuples = tups }),
)

-- A comment.
abbrev pub is_comment : Bytes → Bool
is_comment [] = false
is_comment (c ∷ line) = c == b'#'

-- No name finds another section than before.
abbrev pub SameFound : Sections → Context → Type 0
SameFound secs ctx = (s : Bytes) → find_section s ctx.secs ≡ find_section s secs

-- The tuples that a line gives to an empty section.
abbrev pub tuples_in : ℤ → Bytes → List Tuple
tuples_in layer line =
    if (is_comment line || no_key line)
    then []
    else read_tuple layer (key_of line) (value_in line) ∷ []

stored :
    (layer : ℤ) (line name : Bytes) (pre : Sections)
    → NoLead line
    → key_value layer line (some (length pre)) (within pre name [])
      ≡ ok (
          within pre name
            (if no_key line then [] else read_tuple layer (key_of line) (value_in line) ∷ []))
unfolding key_value find_tuple
stored layer line name pre n = elim (Bool-cases (no_key line)) [
  | inl e ↦ rw e refl
  | inr e ↦
      rw (e, key_there line n e)
        (store-new layer (key_of line) (value_in line) pre name [] (key_there line n e) refl)
]

starts : (name rest : Bytes) → NoLead name → is_empty name ≡ false → NoLead (name ++ b']' ∷ rest)
starts [] rest n e = cc
starts (c ∷ name) rest n e = n

opens :
    (name rest : Bytes) (ctx : Context)
    → Lacks b']' name
    → NoLead name
    → is_empty name ≡ false
    → section_header (skip_ws (name ++ b']' ∷ rest)) ctx ≡ ok (within ctx.secs name [])
unfolding section_header create_section
opens name rest ctx l n e = ground (
  arith,
  skip_ws_noop (name ++ b']' ∷ rest) (starts name rest n e),
  before-append b']' name rest l,
  from-append b']' name rest l,
  e,
)

header_step :
    (layer : ℤ) (name rest : Bytes) (ctx : Context)
    → Lacks b']' name
    → NoLead name
    → is_empty name ≡ false
    → parse_line layer (b'[' ∷ (name ++ b']' ∷ rest)) ctx ≡ ok (within ctx.secs name [])
unfolding parse_line
header_step layer name rest ctx l n e = opens name rest ctx l n e

stored_line :
    (layer : ℤ) (c : ℕ) (line name : Bytes) (pre : Sections)
    → c ≢ b'['
    → is_ws c ≡ false
    → parse_line layer (c ∷ line) (within pre name [])
      ≡ ok (within pre name (tuples_in layer (c ∷ line)))
unfolding parse_line
stored_line layer c line name pre k w =
    let z : (c == b'[') ≡ false = ground arith in
    elim (Bool-cases (c == b'#')) [
      | inl e ↦ rw e refl
      | inr e ↦ rw (e, z) (stored layer (c ∷ line) name pre w)
    ]

-- A header, without blanks before the name, for a section that is there already opens another one
-- of that name, behind all others, and a line that follows, which is no header and begins with no
-- white space, puts its tuple there if it has one: no section is found with other tuples than
-- before.
pub reopened_section :
    (layer : ℤ) (name rest : Bytes) (c : ℕ) (line : Bytes) (found : List Tuple) (ctx : Context)
    → Lacks b']' name
    → NoLead name
    → is_empty name ≡ false
    → find_section name ctx.secs ≡ some found
    → c ≢ b'['
    → is_ws c ≡ false
    → ((parse_line layer (b'[' ∷ (name ++ b']' ∷ rest)) ctx >>= parse_line layer (c ∷ line))
        ≡ ok (within ctx.secs name (tuples_in layer (c ∷ line))))
      × SameFound ctx.secs (within ctx.secs name (tuples_in layer (c ∷ line)))
reopened_section layer name rest c line found ctx l n e h k w = (
  ap (λ r. r >>= parse_line layer (c ∷ line)) (header_step layer name rest ctx l n e)
      ∙ stored_line layer c line name ctx.secs k w,
  λ s. hidden name s found (tuples_in layer (c ∷ line)) ctx.secs h,
)
