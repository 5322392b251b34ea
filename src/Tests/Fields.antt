-- ===== src/Tests/Fields.antt =====
-- Examples for the fields of the responses in libhfp/hfp.cpp, and for the indicator values.
use nohands.Prelude.{◌≡◌, ◌↔◌, refl, true, some, List, [], ◌∷◌, ◌++◌, pos, arith}
use nohands.Text.{Bytes, codes, Lacks}
use nohands.Text.Decimal.{show}
use nohands.Gsm.{GsmClipResult, parse_clip, compare_clip, blank_clip}
use nohands.Gsm.Quoted.{parse_clip_short, parse_clip_named, quote}
use nohands.Gsm.Compare.{compare_clip_iff, caller}
use nohands.Session.Replies.{cind_values}
use nohands.Session.Values.{IsValue, cind_values_ends, cind_values-join, cind_values_blank}

abbrev number : Bytes
number = codes "+491"

number-Lacks : Lacks b'"' number
number-Lacks = ground arith

bob-Lacks : Lacks b'"' (codes "Bob")
bob-Lacks = ground arith

parse_clip_short_example :
    parse_clip (b' ' ∷ (b'"' ∷ (number ++ b'"' ∷ b',' ∷ show 145)))
    ≡ some (record blank_clip { number = some number; type = pos 145 })
parse_clip_short_example = parse_clip_short number 145 number-Lacks (omega arith)

abbrev bob : GsmClipResult
bob = record blank_clip { number = some number; type = pos 145; alpha = some (codes "Bob") }

parse_clip_named_example :
    parse_clip (
      b' '
      ∷ (b'"' ∷ (number ++ b'"' ∷ b',' ∷ (show 145 ++ b',' ∷ b',' ∷ b',' ∷ quote (codes "Bob")))))
    ≡ some bob
parse_clip_named_example =
    parse_clip_named number (codes "Bob") 145 number-Lacks bob-Lacks (omega arith)

compare_clip_iff_example : (compare_clip bob blank_clip ≡ true) ↔ (caller bob ≡ caller blank_clip)
compare_clip_iff_example = compare_clip_iff bob blank_clip

one-IsValue : IsValue (codes "1")
one-IsValue = record {
  some_bytes = λ e. cc;
  no_comma = ground arith;
  no_lead = refl;
  no_trail = refl;
}

cind_values_ends_example : (vs : List Bytes) × (cind_values 4 (codes "1, ") ≡ some vs)
cind_values_ends_example = cind_values_ends 4 (codes "1, ") (omega arith)

cind_values-join_example : cind_values 3 (codes "1,1") ≡ some (codes "1" ∷ codes "1" ∷ [])
cind_values-join_example =
    cind_values-join 3 (codes "1" ∷ codes "1" ∷ []) (one-IsValue, (one-IsValue, tt)) (omega arith)

cind_values_blank_example : cind_values 4 (codes "1 ,1") ≡ some (codes "1" ∷ [] ∷ codes "1" ∷ [])
cind_values_blank_example =
    cind_values_blank 2 (codes "1") (codes "1" ∷ []) (one-IsValue, (one-IsValue, tt)) (omega arith)
