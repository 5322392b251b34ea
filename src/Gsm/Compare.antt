-- ===== src/Gsm/Compare.antt =====
-- `GsmClipResult::Compare` of libhfp/hfp.cpp against the caller that a result names.
use nohands.Prelude.{◌≡◌, ◌↔◌, true, Option, none, some, arith, ℤ, ==ℤ_iff, ◌==ℤ◌}
use nohands.Text.{Bytes, str_eq→eq, str_eq_refl}
use nohands.Gsm.{GsmClipResult, compare_field, compare_clip}

-- A number or a subaddress counts with its type; without the number the type means nothing.
abbrev pub typed : Option Bytes → ℤ → Option (Bytes × ℤ)
typed none t = none
typed (some s) t = some (s, t)

-- What a client can tell apart of the caller.
pub record Caller : Type 0 where
  pub number : Option (Bytes × ℤ)
  pub subaddr : Option (Bytes × ℤ)
  pub alpha : Option Bytes

abbrev pub caller : GsmClipResult → Caller
caller r = record {
  number = typed r.number r.type;
  subaddr = typed r.subaddr r.satype;
  alpha = r.alpha;
}

compare_typed :
    (a b : Option Bytes) (s t : ℤ) → (compare_field a b (s ==ℤ t) ≡ true) ↔ (typed a s ≡ typed b t)
unfolding compare_field
compare_typed none none s t = ground arith
compare_typed none (some b) s t = ground arith
compare_typed (some a) none s t = ground arith
compare_typed (some a) (some b) s t = ground (arith, str_eq→eq a b, str_eq_refl a, ==ℤ_iff s t)

compare_plain : (a b : Option Bytes) → (compare_field a b true ≡ true) ↔ (a ≡ b)
unfolding compare_field
compare_plain none none = ground arith
compare_plain none (some b) = ground arith
compare_plain (some a) none = ground arith
compare_plain (some a) (some b) = ground (arith, str_eq→eq a b, str_eq_refl a)

-- Compare returns true exactly when both results name the same caller.
pub compare_clip_iff : (a b : GsmClipResult) → (compare_clip a b ≡ true) ↔ (caller a ≡ caller b)
unfolding compare_clip
compare_clip_iff a b = ground (
  arith,
  compare_typed a.number b.number a.type b.type,
  compare_typed a.subaddr b.subaddr a.satype b.satype,
  compare_plain a.alpha b.alpha,
)
