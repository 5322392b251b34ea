-- ===== src/Gsm.antt =====
-- The parsers of GSM result codes of libhfp/hfp.cpp: `ParseGsmStringField`, `ParseGsmIntField` and
-- the `Parse` functions of the result classes. A string field that the source points at by a
-- `const char *` is `some` of its bytes, and `none` for the null pointer. Memory is taken to be
-- available in `operator new`, which clears the object.
pub mod Fields
pub mod Quoted
pub mod Compare
use nohands.Prelude.{
  Bool, true, false, ◌&&◌, ◌||◌, Option, none, some, [], ◌∷◌, ◌==◌, if◌then◌else◌, ℤ, pos, ◌==ℤ◌,
}
use nohands.Text.{Bytes, str_eq}
use Fields.{parse_gsm_string_field, parse_gsm_int_field}

pub record GsmClipResult : Type 0 where
  pub number : Option Bytes
  pub type : ℤ
  pub subaddr : Option Bytes
  pub satype : ℤ
  pub alpha : Option Bytes
  pub cli_validity : ℤ

pub record GsmCnumResult : Type 0 where
  pub alpha : Option Bytes
  pub number : Option Bytes
  pub type : ℤ
  pub speed : ℤ
  pub service : ℤ

pub record GsmCopsResult : Type 0 where
  pub mode : ℤ
  pub format : ℤ
  pub alpha : Option Bytes
  pub nonalpha : ℤ

pub record GsmClccResult : Type 0 where
  pub idx : ℤ
  pub dir : ℤ
  pub stat : ℤ
  pub mode : ℤ
  pub mpty : ℤ
  pub number : Option Bytes
  pub type : ℤ
  pub alpha : Option Bytes

module _ {ℓ} {R : Type ℓ} where
  -- `if (!Parse...Field(buf, res->f)) goto bad;` then `if (!*buf) return res;`
  abbrev optional : Option (Bytes × R) → (Bytes → R → Option R) → Option R
  optional none rest = none
  optional (some ([], r)) rest = some r
  optional (some (c ∷ buf, r)) rest = rest (c ∷ buf) r

  -- The same, then `if (!*buf) goto bad;`
  abbrev required : Option (Bytes × R) → (Bytes → R → Option R) → Option R
  required none rest = none
  required (some ([], r)) rest = none
  required (some (c ∷ buf, r)) rest = rest (c ∷ buf) r

  -- The same, then `return res;`
  abbrev final : Option (Bytes × R) → Option R
  final none = none
  final (some (buf, r)) = some r

  abbrev string_to : (Option Bytes → R) → Bytes → Option (Bytes × R)
  string_to store buf = elim (parse_gsm_string_field buf) [
    | none ↦ none
    | some (rest, s) ↦ some (rest, store s)
  ]

  abbrev int_to : (ℤ → R) → ℤ → Bytes → Option (Bytes × R)
  int_to store old buf = elim (parse_gsm_int_field old buf) [
    | none ↦ none
    | some (rest, n) ↦ some (rest, store n)
  ]

abbrev pub blank_clip : GsmClipResult
blank_clip = record {
  number = none;
  type = pos 0;
  subaddr = none;
  satype = pos 0;
  alpha = none;
  cli_validity = pos 0;
}

unfoldable pub parse_clip : Bytes → Option GsmClipResult
parse_clip clip = optional (string_to (λ s. record blank_clip { number = s }) clip) λ buf r.
    optional (int_to (λ n. record r { type = n }) r.type buf) λ buf r.
      optional (string_to (λ s. record r { subaddr = s }) buf) λ buf r.
        optional (int_to (λ n. record r { satype = n }) r.satype buf) λ buf r.
          optional (string_to (λ s. record r { alpha = s }) buf)
            λ buf r. final (int_to (λ n. record r { cli_validity = n }) r.cli_validity buf)

-- The class of the call is read into `class_drop`, which nothing reads.
unfoldable pub parse_ccwa : Bytes → Option GsmClipResult
parse_ccwa clip = optional (string_to (λ s. record blank_clip { number = s }) clip) λ buf r.
    optional (int_to (λ n. record r { type = n }) r.type buf) λ buf r.
      optional (int_to (λ class_drop. r) (pos 0) buf) λ buf r.
        optional (string_to (λ s. record r { alpha = s }) buf)
          λ buf r. final (int_to (λ n. record r { cli_validity = n }) r.cli_validity buf)

abbrev blank_cnum : GsmCnumResult
blank_cnum = record { alpha = none; number = none; type = pos 0; speed = pos 0; service = pos 0 }

unfoldable pub parse_cnum : Bytes → Option GsmCnumResult
parse_cnum cnum = required (string_to (λ s. record blank_cnum { alpha = s }) cnum) λ buf r.
    required (string_to (λ s. record r { number = s }) buf) λ buf r.
      optional (int_to (λ n. record r { type = n }) r.type buf) λ buf r.
        optional (int_to (λ n. record r { speed = n }) r.speed buf)
          λ buf r. final (int_to (λ n. record r { service = n }) r.service buf)

abbrev blank_cops : GsmCopsResult
blank_cops = record { mode = pos 0; format = pos 0; alpha = none; nonalpha = pos 0 }

unfoldable pub parse_cops : Bytes → Option GsmCopsResult
parse_cops cops = optional (int_to (λ n. record blank_cops { mode = n }) (pos 0) cops) λ buf r.
    required (int_to (λ n. record r { format = n }) r.format buf) λ buf r.
      if r.format ==ℤ pos 0 || r.format ==ℤ pos 1
      then final (string_to (λ s. record r { alpha = s }) buf)
      else if r.format ==ℤ pos 2
      then final (int_to (λ n. record r { nonalpha = n }) r.nonalpha buf)
      else none

abbrev blank_clcc : GsmClccResult
blank_clcc = record {
  idx = pos 0;
  dir = pos 0;
  stat = pos 0;
  mode = pos 0;
  mpty = pos 0;
  number = none;
  type = pos 0;
  alpha = none;
}

unfoldable pub parse_clcc : Bytes → Option GsmClccResult
parse_clcc clcc = required (int_to (λ n. record blank_clcc { idx = n }) (pos 0) clcc) λ buf r.
    required (int_to (λ n. record r { dir = n }) r.dir buf) λ buf r.
      required (int_to (λ n. record r { stat = n }) r.stat buf) λ buf r.
        required (int_to (λ n. record r { mode = n }) r.mode buf) λ buf r.
          optional (int_to (λ n. record r { mpty = n }) r.mpty buf) λ buf r.
            required (string_to (λ s. record r { number = s }) buf) λ buf r.
              optional (int_to (λ n. record r { type = n }) r.type buf)
                λ buf r. final (string_to (λ s. record r { alpha = s }) buf)

-- Two fields that may be null, and what is compared with them where both are set.
compare_field : Option Bytes → Option Bytes → Bool → Bool
compare_field none none others = true
compare_field (some a) (some b) others = str_eq a b && others
compare_field _ _ others = false

-- `GsmClipResult::Compare`
unfoldable pub compare_clip : GsmClipResult → GsmClipResult → Bool
unfolding compare_field
compare_clip src clip =
    compare_field src.number clip.number (src.type ==ℤ clip.type)
    && compare_field src.subaddr clip.subaddr (src.satype ==ℤ clip.satype)
    && compare_field src.alpha clip.alpha true
