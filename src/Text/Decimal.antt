-- ===== src/Text/Decimal.antt =====
-- `sprintf` with `%d` or `%u` of a number that is not negative, and that `strtol` reads it back.
use mathlib.Core.List.{append-nil}
use nohands.Prelude.{
  ℤ, negsuc, ℕ, zero, suc, false, ◌+◌, ◌*◌, ◌/◌, ◌%◌, ◌^◌, ◌≤◌, ◌<◌, ◌≡◌, refl, ◌∙◌, some, List, [],
  ◌∷◌, ◌++◌, ◌==◌, if◌then◌else◌, pos, arith, Bool-cases, inl, inr,
}
use nohands.Text.Strtol.{
  digit_value, scan_digits, some_digits, skip_space, prefixed, strtol?, to_int,
}

show_onto : ℕ → ℕ → List ℕ → List ℕ
show_onto zero n acc = acc
show_onto (suc fuel) n acc =
    let rest = show_onto fuel (n / 10) ((b'0' + n % 10) ∷ acc) in
    if n / 10 == 0 then (b'0' + n % 10) ∷ acc else rest

-- More digits than `suc n` no number `n` has.
unfoldable pub show : ℕ → List ℕ
unfolding show_onto
show n = show_onto (suc n) n []

digit_value-digit : (d : ℕ) → d < 10 → digit_value (b'0' + d) ≡ d
digit_value-digit d h = ground arith

scan-digit :
    (a d n : ℕ) (acc : List ℕ)
    → d < 10
    → a * 10 + d ≡ n
    → scan_digits 10 a ((b'0' + d) ∷ acc) ≡ scan_digits 10 n acc
unfolding scan_digits
scan-digit a d n acc h e = rw (digit_value-digit d h) (rw e (ground arith))

scan-show_onto :
    (fuel n : ℕ) (acc : List ℕ)
    → n < fuel
    → scan_digits 10 0 (show_onto fuel n acc) ≡ scan_digits 10 n acc
unfolding show_onto
scan-show_onto zero n acc h = absurd (omega arith)
scan-show_onto (suc fuel) n acc h = elim (Bool-cases (n / 10 == 0)) [
  | inl e ↦ rw e (scan-digit 0 (n % 10) n acc (omega arith) (ground arith))
  | inr e ↦ rw e (
      scan-show_onto fuel (n / 10) _ (ground arith)
      ∙ scan-digit (n / 10) (n % 10) n acc (omega arith) (omega arith))
]

show_onto-append : (fuel n : ℕ) (a b : List ℕ) → show_onto fuel n (a ++ b) ≡ show_onto fuel n a ++ b
unfolding show_onto
show_onto-append zero n a b = refl
show_onto-append (suc fuel) n a b =
    ground (arith, show_onto-append fuel (n / 10) ((b'0' + n % 10) ∷ a) b)

-- A digit stands in front; it is no zero unless the number is.
pub record Starts (n : ℕ) (s : List ℕ) : Type 0 where
  pub digit : ℕ
  pub rest : List ℕ
  pub is_cons : s ≡ (b'0' + digit) ∷ rest
  pub lt_ten : digit < 10
  pub ne_zero : 0 < n → 0 < digit
  pub rest_nil : n ≡ 0 → rest ≡ []

show_onto-Starts :
    (fuel n : ℕ) (acc : List ℕ) → n < fuel → (n ≡ 0 → acc ≡ []) → Starts n (show_onto fuel n acc)
unfolding show_onto
show_onto-Starts zero n acc h z = absurd (omega arith)
show_onto-Starts (suc fuel) n acc h z = elim (Bool-cases (n / 10 == 0)) [
  | inl e ↦ rw e (record {
    digit = n % 10;
    rest = acc;
    is_cons = refl;
    lt_ten = omega arith;
    ne_zero = λ p. ground arith;
    rest_nil = z;
  })
  | inr e ↦
      let later =
        show_onto-Starts fuel (n / 10) ((b'0' + n % 10) ∷ acc) (ground arith)
          (λ o. absurd (ground arith)) in
      rw e (record {
        digit = later.digit;
        rest = later.rest;
        is_cons = later.is_cons;
        lt_ten = later.lt_ten;
        ne_zero = λ p. later.ne_zero (ground arith);
        rest_nil = λ o. absurd (ground arith);
      })
]

pub show-Starts : (n : ℕ) → Starts n (show n)
unfolding show
show-Starts n = show_onto-Starts (suc n) n [] (omega arith) (λ _. refl)

-- What may follow a number: no digit.
abbrev pub Ends : List ℕ → Type 0
Ends [] = Unit
Ends (c ∷ cs) = 10 ≤ digit_value c

scan-Ends : (n : ℕ) (rest : List ℕ) → Ends rest → scan_digits 10 n rest ≡ (n, rest)
unfolding scan_digits
scan-Ends n [] h = refl
scan-Ends n (c ∷ rest) h = ground arith

scan-show : (n : ℕ) (rest : List ℕ) → Ends rest → scan_digits 10 0 (show n ++ rest) ≡ (n, rest)
unfolding show
scan-show n rest h =
    rw (← show_onto-append (suc n) n [] rest)
      (scan-show_onto (suc n) n rest (omega arith) ∙ scan-Ends n rest h)

-- `strtol` in base 10 on text that starts with a digit.
strtol-digit :
    (d : ℕ) (cs : List ℕ) (r : ℕ × List ℕ)
    → d < 10
    → scan_digits 10 0 ((b'0' + d) ∷ cs) ≡ r
    → r.0 < 2 ^ 63
    → strtol? 10 ((b'0' + d) ∷ cs) ≡ some (pos r.0, r.1)
unfolding strtol? skip_space
strtol-digit d cs r h e b = ground (arith, digit_value-digit d h)

-- Reading back in base 10 a number that was printed, whatever follows it that is no digit.
pub strtol-show :
    (n : ℕ) (rest : List ℕ)
    → n < 2 ^ 63
    → Ends rest
    → strtol? 10 (show n ++ rest) ≡ some (pos n, rest)
strtol-show n rest b h =
    let st = show-Starts n in
    rw st.is_cons (
      strtol-digit st.digit (st.rest ++ rest) (n, rest) st.lt_ten
        (rw st.is_cons at (scan-show n rest h)) b)

prefixed-decimal :
    (c : ℕ) (cs : List ℕ) → (c == b'0') ≡ false → prefixed (c ∷ cs) ≡ some_digits 10 (c ∷ cs)
unfolding prefixed
prefixed-decimal c [] h = rw h
prefixed-decimal c (x ∷ []) h = rw h
prefixed-decimal c (x ∷ y ∷ cs) h = rw h

strtol-digit_base0 :
    (d : ℕ) (cs : List ℕ) (r : ℕ × List ℕ)
    → d < 10
    → 0 < d
    → scan_digits 10 0 ((b'0' + d) ∷ cs) ≡ r
    → r.0 < 2 ^ 63
    → strtol? 0 ((b'0' + d) ∷ cs) ≡ some (pos r.0, r.1)
unfolding strtol? skip_space
strtol-digit_base0 d cs r h p e b =
    ground (arith, digit_value-digit d h, prefixed-decimal (b'0' + d) cs (ground arith))

strtol-show_zero : strtol? 0 (show 0) ≡ some (pos 0, [])
unfolding strtol? show skip_space prefixed scan_digits
strtol-show_zero = refl

-- In base 0 a printed number is read as decimal too: it has no leading zero.
pub strtol-show_base0 : (n : ℕ) → n < 2 ^ 63 → strtol? 0 (show n) ≡ some (pos n, [])
strtol-show_base0 zero b = strtol-show_zero
strtol-show_base0 (suc n) b =
    let st = show-Starts (suc n) in
    rw st.is_cons (
      strtol-digit_base0 st.digit st.rest (suc n, []) st.lt_ten (st.ne_zero (omega arith))
        (rw st.is_cons at (rw append-nil at (scan-show (suc n) [] tt))) b)

pub to_int-pos : (n : ℕ) → n < 2 ^ 31 → to_int (pos n) ≡ pos n
unfolding to_int
to_int-pos n h = ground arith

-- `%d` of an `int`.
abbrev pub show_int : ℤ → List ℕ
show_int (pos n) = show n
show_int (negsuc n) = b'-' ∷ show (suc n)
