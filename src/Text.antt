-- ===== src/Text.antt =====
-- C strings as the sources use them: a string is the list of its bytes before the NUL, and a
-- `char *` that walks a string is the list of the bytes that are still ahead of it. `IsWS` and
-- `IsNL` are those of libhfp/hfp.cpp and hfpd/configfile.cpp, which are the same; the rest is what
-- the sources call of <string.h> and <ctype.h>.
pub mod Strtol
pub mod Decimal
pub mod Lines
use Prim.Native.Char.{code}
use Prim.Native.String.{String}
use nohands.Prelude.{
  ℕ, ◌+◌, ◌≡◌, ◌≢◌, refl, ap, Bool, true, false, ◌&&◌, ◌||◌, Option, none, some, List, [], ◌∷◌,
  ◌++◌, arith, leb, ◌==◌, if◌then◌else◌, All,
}

abbrev pub Bytes : Type 0
Bytes = List ℕ

-- A literal; every one of them is ASCII.
abbrev pub codes : String → Bytes
codes String.[] = []
codes (String.◌∷◌ c s) = code c ∷ codes s

abbrev pub is_ws : ℕ → Bool
is_ws c = c == b' ' || c == b'\t'

abbrev pub is_nl : ℕ → Bool
is_nl c = c == b'\r' || c == b'\n'

-- `while (IsWS(*p)) p++`: the NUL is no white space.
unfoldable pub skip_ws : Bytes → Bytes
skip_ws [] = []
skip_ws (c ∷ cs) = if is_ws c then skip_ws cs else c ∷ cs

-- `for (n = strlen(p); n && IsWS(p[n - 1]); n--);` followed by `p[n] = 0`.
unfoldable pub trim_cons : ℕ → Bytes → Bytes
trim_cons c [] = if is_ws c then [] else c ∷ []
trim_cons c (d ∷ rest) = c ∷ d ∷ rest

unfoldable pub trim_end : Bytes → Bytes
unfolding trim_cons
trim_end [] = []
trim_end (c ∷ cs) = trim_cons c (trim_end cs)

-- The bytes before the first `x`, and those from it on.
unfoldable pub before : ℕ → Bytes → Bytes
before x [] = []
before x (c ∷ cs) = let rest = before x cs in if c == x then [] else c ∷ rest

unfoldable pub from : ℕ → Bytes → Bytes
from x [] = []
from x (c ∷ cs) = let rest = from x cs in if c == x then c ∷ cs else rest

-- `!strncmp(s, p, strlen(p))`, with what follows the prefix.
unfoldable pub strip_prefix : Bytes → Bytes → Option Bytes
strip_prefix [] s = some s
strip_prefix (p ∷ ps) [] = none
strip_prefix (p ∷ ps) (c ∷ s) = let rest = strip_prefix ps s in if p == c then rest else none

-- `!strcmp(a, b)`
unfoldable pub str_eq : Bytes → Bytes → Bool
str_eq [] [] = true
str_eq (a ∷ as') (b ∷ bs) = a == b && str_eq as' bs
str_eq _ _ = false

abbrev pub to_lower : ℕ → ℕ
to_lower c = if leb b'A' c && leb c b'Z' then c + 32 else c

-- `!strcasecmp(a, b)`
unfoldable pub str_case_eq : Bytes → Bytes → Bool
str_case_eq [] [] = true
str_case_eq (a ∷ as') (b ∷ bs) = to_lower a == to_lower b && str_case_eq as' bs
str_case_eq _ _ = false

pub str_eq→eq : (a b : Bytes) → str_eq a b ≡ true → a ≡ b
unfolding str_eq
str_eq→eq [] [] h = refl
str_eq→eq [] (_ ∷ _) h = cc
str_eq→eq (x ∷ a) [] h = cc
str_eq→eq (x ∷ a) (y ∷ b) h = ground (arith, str_eq→eq a b)

pub str_eq_refl : (a : Bytes) → str_eq a a ≡ true
unfolding str_eq
str_eq_refl [] = refl
str_eq_refl (x ∷ a) = ground (arith, str_eq_refl a)

-- The string has no byte `x`.
abbrev pub Lacks : ℕ → Bytes → Type 0
Lacks x s = All (λ c. c ≢ x) s

pub before-append : (x : ℕ) (a b : Bytes) → Lacks x a → before x (a ++ x ∷ b) ≡ a
unfolding before
before-append x [] b h = ground arith
before-append x (c ∷ a) b h = ground (arith, before-append x a b h.1)

pub from-append : (x : ℕ) (a b : Bytes) → Lacks x a → from x (a ++ x ∷ b) ≡ x ∷ b
unfolding from
from-append x [] b h = ground arith
from-append x (c ∷ a) b h = ground (arith, from-append x a b h.1)

pub before-none : (x : ℕ) (a : Bytes) → Lacks x a → before x a ≡ a
unfolding before
before-none x [] h = refl
before-none x (c ∷ a) h = ground (arith, before-none x a h.1)

pub from-none : (x : ℕ) (a : Bytes) → Lacks x a → from x a ≡ []
unfolding from
from-none x [] h = refl
from-none x (c ∷ a) h = ground (arith, from-none x a h.1)

-- The string does not begin with white space; it does not end with it.
abbrev pub NoLead : Bytes → Type 0
NoLead [] = Unit
NoLead (c ∷ cs) = is_ws c ≡ false

abbrev pub NoTrail : Bytes → Type 0
NoTrail [] = Unit
NoTrail (c ∷ []) = is_ws c ≡ false
NoTrail (c ∷ d ∷ cs) = NoTrail (d ∷ cs)

pub skip_ws_noop : (a : Bytes) → NoLead a → skip_ws a ≡ a
unfolding skip_ws
skip_ws_noop [] h = refl
skip_ws_noop (c ∷ a) h = rw h

pub trim_end_noop : (a : Bytes) → NoTrail a → trim_end a ≡ a
unfolding trim_end
trim_end_noop [] h = refl
trim_end_noop (c ∷ []) h = rw h
trim_end_noop (c ∷ d ∷ a) h = ap (trim_cons c) (trim_end_noop (d ∷ a) h)

NoTrail-trim_cons : (c : ℕ) (a : Bytes) → NoTrail a → NoTrail (trim_cons c a)
unfolding trim_cons
NoTrail-trim_cons c [] h = ground arith
NoTrail-trim_cons c (d ∷ a) h = h

pub NoTrail-trim_end : (a : Bytes) → NoTrail (trim_end a)
unfolding trim_end
NoTrail-trim_end [] = tt
NoTrail-trim_end (c ∷ a) = NoTrail-trim_cons c (trim_end a) (NoTrail-trim_end a)

pub NoLead-skip_ws : (a : Bytes) → NoLead (skip_ws a)
unfolding skip_ws
NoLead-skip_ws [] = tt
NoLead-skip_ws (c ∷ a) = ground (arith, NoLead-skip_ws a)

trim_cons-lead : (c : ℕ) (a : Bytes) → is_ws c ≡ false → trim_cons c a ≢ []
unfolding trim_cons
trim_cons-lead c [] h = rw h (λ e. cc)
trim_cons-lead c (d ∷ a) h = λ e. cc

pub trim_end-lead : (c : ℕ) (a : Bytes) → is_ws c ≡ false → trim_end (c ∷ a) ≢ []
unfolding trim_end
trim_end-lead c a h = trim_cons-lead c (trim_end a) h

pub str_eq_comm : (a b : Bytes) → str_eq a b ≡ str_eq b a
unfolding str_eq
str_eq_comm [] [] = refl
str_eq_comm [] (_ ∷ _) = refl
str_eq_comm (_ ∷ _) [] = refl
str_eq_comm (x ∷ a) (y ∷ b) = ground (arith, str_eq_comm a b)

pub str_eq_ne : (a b : Bytes) → a ≢ b → str_eq a b ≡ false
str_eq_ne a b n = ground (arith, str_eq→eq a b)

pub ne-str_eq : (a b : Bytes) → str_eq a b ≡ false → a ≢ b
ne-str_eq a b h e = ground (arith, str_eq_refl b, ap (λ x. str_eq x b) e)
