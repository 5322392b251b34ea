-- ===== src/Gsm/Quoted.antt =====
-- What the field parsers of libhfp/hfp.cpp make of the fields that 3GPP 27.007 prescribes: quoted
-- strings and decimal numbers.
use mathlib.Core.List.{append-nil}
use nohands.Prelude.{
  ℕ, ◌+◌, ◌<◌, ◌^◌, ◌≡◌, refl, ◌∙◌, true, none, some, [], ◌∷◌, ◌++◌, ℤ, pos, arith, All,
}
use nohands.Text.{Bytes, is_ws, skip_ws, trim_end, before, from, Lacks, before-append, from-append}
use nohands.Text.Strtol.{to_int, strtol?}
use nohands.Text.Decimal.{show, show-Starts, Ends, strtol-show, to_int-pos}
use nohands.Gsm.Fields.{
  non_empty, parse_gsm_string_field, parse_gsm_int_field, int_end, string_field,
}
use nohands.Gsm.{blank_clip, parse_clip}

abbrev pub IsBlank : Bytes → Type 0
IsBlank s = All (λ c. is_ws c ≡ true) s

skip_ws-blank : (w s : Bytes) → IsBlank w → skip_ws (w ++ s) ≡ skip_ws s
unfolding skip_ws
skip_ws-blank [] s h = refl
skip_ws-blank (c ∷ w) s h = rw (h.0) (skip_ws-blank w s h.1)

abbrev pub quote : Bytes → Bytes
quote s = b'"' ∷ (s ++ b'"' ∷ [])

blank-Lacks : (w : Bytes) → IsBlank w → Lacks b',' w
blank-Lacks [] h = tt
blank-Lacks (c ∷ w) h = (ground (arith, h.0), blank-Lacks w h.1)

string_field_at :
    (s v rest : Bytes)
    → Lacks b'"' s
    → IsBlank v
    → string_field (skip_ws (b'"' ∷ (s ++ b'"' ∷ (v ++ b',' ∷ rest)))) ≡ some (rest, non_empty s)
unfolding skip_ws
string_field_at s v rest hs hv = rw (
  before-append b'"' s (v ++ b',' ∷ rest) hs,
  from-append b'"' s (v ++ b',' ∷ rest) hs,
  from-append b',' v rest (blank-Lacks v hv),
)

-- A quoted string that holds no quote is read as it stands between its quotes, commas and white
-- space included, with blanks before it and between it and the comma; reading goes on behind the
-- comma.
string_field_quoted :
    (w s v rest : Bytes)
    → IsBlank w
    → Lacks b'"' s
    → IsBlank v
    → parse_gsm_string_field (w ++ (b'"' ∷ (s ++ b'"' ∷ (v ++ b',' ∷ rest))))
      ≡ some (rest, non_empty s)
unfolding parse_gsm_string_field
string_field_quoted w s v rest hw hs hv =
    rw (skip_ws-blank w (b'"' ∷ (s ++ b'"' ∷ (v ++ b',' ∷ rest))) hw)
      (string_field_at s v rest hs hv)

string_field_last :
    (s : Bytes) → Lacks b'"' s → parse_gsm_string_field (quote s) ≡ some ([], non_empty s)
unfolding parse_gsm_string_field skip_ws from
string_field_last s h = rw (before-append b'"' s [] h, from-append b'"' s [] h)

-- Nothing stands before the comma.
string_field_omitted : (rest : Bytes) → parse_gsm_string_field (b',' ∷ rest) ≡ some (rest, none)
unfolding parse_gsm_string_field skip_ws from before trim_end
string_field_omitted rest = refl

int_field_omitted :
    (old : ℤ) (rest : Bytes) → parse_gsm_int_field old (b',' ∷ rest) ≡ some (rest, old)
unfolding parse_gsm_int_field skip_ws strtol?
int_field_omitted old rest = refl

int_field_digit :
    (old : ℤ) (d : ℕ) (cs : Bytes) (n : ℕ) (endp : Bytes)
    → d < 10
    → strtol? 10 ((b'0' + d) ∷ cs) ≡ some (pos n, endp)
    → parse_gsm_int_field old ((b'0' + d) ∷ cs) ≡ int_end (to_int (pos n)) (skip_ws endp)
unfolding parse_gsm_int_field skip_ws
int_field_digit old d cs n endp h e = ground arith

-- A printed number is read back, and what follows it is handed to the end of the field.
int_field_show :
    (old : ℤ) (n : ℕ) (rest : Bytes)
    → n < 2 ^ 31
    → Ends rest
    → parse_gsm_int_field old (show n ++ rest) ≡ int_end (pos n) (skip_ws rest)
int_field_show old n rest h e =
    let st = show-Starts n in
    rw st.is_cons (
      rw (to_int-pos n h) at (
        int_field_digit old st.digit (st.rest ++ rest) n rest st.lt_ten
          (rw st.is_cons at (strtol-show n rest (omega arith) e))))

Ends-blank : (v rest : Bytes) → IsBlank v → Ends (v ++ b',' ∷ rest)
Ends-blank [] rest h = omega arith
Ends-blank (c ∷ v) rest h = ground (arith, h.0)

int_end-blank :
    (n : ℤ) (v rest : Bytes) → IsBlank v → int_end n (skip_ws (v ++ b',' ∷ rest)) ≡ some (rest, n)
unfolding skip_ws
int_end-blank n [] rest h = refl
int_end-blank n (c ∷ v) rest h = rw (h.0) (int_end-blank n v rest h.1)

-- A number of an int as %d prints it is read back, whatever blanks come before the comma.
int_field_number :
    (old : ℤ) (n : ℕ) (v rest : Bytes)
    → n < 2 ^ 31
    → IsBlank v
    → parse_gsm_int_field old (show n ++ (v ++ b',' ∷ rest)) ≡ some (rest, pos n)
int_field_number old n v rest h hv =
    int_field_show old n _ h (Ends-blank v rest hv) ∙ int_end-blank (pos n) v rest hv

int_field_last :
    (old : ℤ) (n : ℕ) → n < 2 ^ 31 → parse_gsm_int_field old (show n) ≡ some ([], pos n)
unfolding skip_ws
int_field_last old n h = rw append-nil at (int_field_show old n [] h tt)

-- +CLIP with a number and its type, and with the optional name behind two omitted fields.
pub parse_clip_short :
    (number : Bytes) (n : ℕ)
    → Lacks b'"' number
    → n < 2 ^ 31
    → parse_clip (b' ' ∷ (b'"' ∷ (number ++ b'"' ∷ b',' ∷ show n)))
      ≡ some (record blank_clip { number = non_empty number; type = pos n })
unfolding parse_clip
parse_clip_short number n hn h =
    let st = show-Starts n in
    let first = string_field_quoted (b' ' ∷ []) number [] (show n) (refl, tt) hn tt in
    ground (arith, first, int_field_last (pos 0) n h, st.is_cons)

-- +CLIP as 3GPP 27.007 prints it with the alphanumeric name, subaddress and its type omitted, is
-- read back, where the strings hold no quote and the type is a number of an int.
pub parse_clip_named :
    (number alpha : Bytes) (n : ℕ)
    → Lacks b'"' number
    → Lacks b'"' alpha
    → n < 2 ^ 31
    → parse_clip
        (b' ' ∷ (b'"' ∷ (number ++ b'"' ∷ b',' ∷ (show n ++ b',' ∷ b',' ∷ b',' ∷ quote alpha))))
      ≡ some
          (record blank_clip { number = non_empty number; type = pos n; alpha = non_empty alpha })
unfolding parse_clip
parse_clip_named number alpha n hn ha h =
    let st = show-Starts n in
    let rest = b',' ∷ b',' ∷ quote alpha in
    ground (
      arith,
      string_field_quoted (b' ' ∷ []) number [] (show n ++ b',' ∷ rest) (refl, tt) hn tt,
      int_field_number (pos 0) n [] rest h tt,
      string_field_omitted (b',' ∷ quote alpha),
      int_field_omitted (pos 0) (quote alpha),
      string_field_last alpha ha,
      st.is_cons,
    )
