-- ===== src/Session/Values.antt =====
-- The loop over the values in `CindRCommand::Response` of libhfp/hfp.cpp: it comes to its end, and
-- what it makes of the bytes between the commas.
use mathlib.Core.Option
use nohands.Prelude.{
  ℕ, zero, suc, ◌≤◌, ◌<◌, ◌≡◌, ◌∙◌, refl, ap, false, Bool-cases, some, List, [], ◌∷◌, ◌++◌, arith,
  All, ◌==◌, length, drop, length-drop, ◌≢◌, inl, inr,
}
use nohands.Text.{
  Bytes, is_ws, skip_ws, trim_end, trim_cons, trim_end-lead, NoTrail, skip_ws_noop, trim_end_noop,
  before, NoLead, NoLead-skip_ws, Lacks, before-none, before-append,
}
use nohands.Session.Replies.{past_value, cind_values}

length-skip_ws : (a : Bytes) → length (skip_ws a) ≤ length a
unfolding skip_ws
length-skip_ws [] = omega arith
length-skip_ws (c ∷ a) = ground (arith, length-skip_ws a)

length-past_value : (a : Bytes) → length (past_value a) ≤ length a
unfolding past_value
length-past_value [] = omega arith
length-past_value (c ∷ a) = ground arith

-- A value takes up bytes unless it is empty, and then a comma follows or the line has ended.
past_shorter :
    (value : Bytes) (c : ℕ) (buf : Bytes)
    → (value ≡ [] → c ≡ b',')
    → length (past_value (drop (length value) (c ∷ buf))) ≤ length buf
unfolding past_value
past_shorter [] c buf h = ground (arith, h refl)
past_shorter (v ∷ vs) c buf h =
    omega (arith, length-past_value (drop (length vs) buf), length-drop (length vs) buf)

empty_at_comma :
    (c : ℕ) (buf : Bytes) → is_ws c ≡ false → trim_end (before b',' (c ∷ buf)) ≡ [] → c ≡ b','
unfolding before
empty_at_comma c buf w e = elim (Bool-cases (c == b',')) [
  | inl q ↦ ground arith
  | inr q ↦ absurd (trim_end-lead c (before b',' buf) w (ground arith))
]

drop_nil : (n : ℕ) → drop {A = ℕ} n [] ≡ []
drop_nil zero = refl
drop_nil (suc n) = refl

advances :
    (here : Bytes) (n : ℕ)
    → NoLead here
    → length here ≤ suc n
    → length (past_value (drop (length (trim_end (before b',' here))) here)) ≤ n
unfolding past_value
advances [] n l h = rw (drop_nil (length (trim_end (before b',' [])))) (omega arith)
advances (c ∷ buf) n l h =
    omega (arith, past_shorter (trim_end (before b',' (c ∷ buf))) c buf (empty_at_comma c buf l))

-- The loop of the reply to AT+CIND? comes to its end on every line, after at most as many rounds
-- as the line has bytes.
pub cind_values_ends :
    (fuel : ℕ) (buf : Bytes)
    → length buf < fuel
    → (vs : List Bytes) × (cind_values fuel buf ≡ some vs)
unfolding cind_values
cind_values_ends zero buf h = absurd (omega arith)
cind_values_ends (suc fuel) [] h = ([], refl)
cind_values_ends (suc fuel) (c ∷ buf) h =
    let here = skip_ws (c ∷ buf) in
    let value = trim_end (before b',' here) in
    let r = cind_values_ends fuel (past_value (drop (length value) here)) (
      omega (
        arith,
        length-skip_ws (c ∷ buf),
        advances here (length buf) (NoLead-skip_ws (c ∷ buf)) (length-skip_ws (c ∷ buf)),
      )) in
    (value ∷ r.0, ap (Option.map (λ vs. value ∷ vs)) r.1)

drop-append : (v rest : Bytes) → drop (length v) (v ++ rest) ≡ rest
drop-append [] rest = refl
drop-append (c ∷ v) rest = drop-append v rest

drop-length : (v : Bytes) → drop (length v) v ≡ []
drop-length [] = refl
drop-length (c ∷ v) = drop-length v

-- A value as an indicator has it: some bytes, none of them a comma, and no blank around them.
pub record IsValue (v : Bytes) : Type 0 where
  pub some_bytes : v ≢ []
  pub no_comma : Lacks b',' v
  pub no_lead : NoLead v
  pub no_trail : NoTrail v

NoLead-append : (v rest : Bytes) → v ≢ [] → NoLead v → NoLead (v ++ rest)
NoLead-append [] rest h l = absurd (h refl)
NoLead-append (c ∷ v) rest h l = l

-- One round of the loop.
round :
    (fuel : ℕ) (buf here value : Bytes)
    → buf ≢ []
    → skip_ws buf ≡ here
    → trim_end (before b',' here) ≡ value
    → cind_values (suc fuel) buf
      ≡ Option.map (λ vs. value ∷ vs) (cind_values fuel (past_value (drop (length value) here)))
unfolding cind_values
round fuel [] here value h e f = absurd (h refl)
round fuel (c ∷ buf) here value h e f = rw (← f) (rw (← e) refl)

append-ne : (v rest : Bytes) → v ≢ [] → (v ++ rest) ≢ []
append-ne [] rest h = absurd (h refl)
append-ne (c ∷ v) rest h = λ e. cc

-- A value with a comma behind it.
cind_values-cons :
    (fuel : ℕ) (v rest : Bytes)
    → IsValue v
    → cind_values (suc fuel) (v ++ b',' ∷ rest) ≡ Option.map (λ vs. v ∷ vs) (cind_values fuel rest)
unfolding past_value
cind_values-cons fuel v rest h =
    let buf = v ++ b',' ∷ rest in
    round fuel buf buf v (append-ne v (b',' ∷ rest) h.some_bytes)
      (skip_ws_noop buf (NoLead-append v (b',' ∷ rest) h.some_bytes h.no_lead))
      (ap trim_end (before-append b',' v rest h.no_comma) ∙ trim_end_noop v h.no_trail)
    ∙ ap (λ b. Option.map (λ vs. v ∷ vs) (cind_values fuel (past_value b)))
        (drop-append v (b',' ∷ rest))

-- The last value.
cind_values_last :
    (fuel : ℕ) (v : Bytes) → IsValue v → cind_values (suc (suc fuel)) v ≡ some (v ∷ [])
unfolding past_value cind_values
cind_values_last fuel v h =
    round (suc fuel) v v v h.some_bytes (skip_ws_noop v h.no_lead)
      (ap trim_end (before-none b',' v h.no_comma) ∙ trim_end_noop v h.no_trail)
    ∙ ap (λ b. Option.map (λ vs. v ∷ vs) (cind_values (suc fuel) (past_value b))) (drop-length v)

-- The values as the audio gateway writes them.
abbrev pub join : List Bytes → Bytes
join [] = []
join (v ∷ []) = v
join (v ∷ w ∷ vs) = v ++ b',' ∷ join (w ∷ vs)

-- Values that have no blanks around them and are separated by commas reach the indicators one by
-- one, each in its place.
pub cind_values-join :
    (fuel : ℕ) (vs : List Bytes)
    → All IsValue vs
    → length vs < fuel
    → cind_values fuel (join vs) ≡ some vs
unfolding cind_values
cind_values-join zero vs h l = absurd (omega arith)
cind_values-join (suc fuel) [] h l = refl
cind_values-join (suc zero) (v ∷ vs) h l = absurd (omega arith)
cind_values-join (suc (suc fuel)) (v ∷ []) h l = cind_values_last fuel v h.0
cind_values-join (suc (suc fuel)) (v ∷ w ∷ vs) h l =
    cind_values-cons (suc fuel) v (join (w ∷ vs)) h.0
    ∙ ap (Option.map (λ ws. v ∷ ws)) (cind_values-join (suc fuel) (w ∷ vs) h.1 (omega arith))

before-blank :
    (v rest : Bytes) → Lacks b',' v → before b',' (v ++ b' ' ∷ b',' ∷ rest) ≡ v ++ b' ' ∷ []
unfolding before
before-blank [] rest h = refl
before-blank (c ∷ v) rest h = ground (arith, before-blank v rest h.1)

trim_end-blank : (v : Bytes) → NoTrail v → trim_end (v ++ b' ' ∷ []) ≡ v
unfolding trim_end trim_cons
trim_end-blank [] h = refl
trim_end-blank (c ∷ []) h = rw h refl
trim_end-blank (c ∷ d ∷ v) h = ap (trim_cons c) (trim_end-blank (d ∷ v) h)

-- The round that begins at a blank before a comma.
blank_round :
    (fuel : ℕ) (rest : Bytes)
    → cind_values (suc fuel) (b' ' ∷ b',' ∷ rest)
      ≡ Option.map (λ ws. [] ∷ ws) (cind_values fuel rest)
unfolding cind_values skip_ws before trim_end past_value
blank_round fuel rest = refl

-- A blank between a value and its comma counts as one more, empty, value: those behind it reach
-- the indicators that come one later.
pub cind_values_blank :
    (fuel : ℕ) (v : Bytes) (vs : List Bytes)
    → All IsValue (v ∷ vs)
    → length vs < fuel
    → cind_values (suc (suc fuel)) (v ++ b' ' ∷ b',' ∷ join vs) ≡ some (v ∷ [] ∷ vs)
unfolding past_value
cind_values_blank fuel v vs h l =
    let tail = b' ' ∷ b',' ∷ join vs in
    let add : List Bytes → List Bytes = λ ws. v ∷ ws in
    round (suc fuel) (v ++ tail) (v ++ tail) v (append-ne v tail (h.0).some_bytes)
      (skip_ws_noop (v ++ tail) (NoLead-append v tail (h.0).some_bytes (h.0).no_lead))
      (ap trim_end (before-blank v (join vs) (h.0).no_comma) ∙ trim_end-blank v (h.0).no_trail)
    ∙ ap (λ b. Option.map add (cind_values (suc fuel) (past_value b))) (drop-append v tail)
    ∙ ap (Option.map add) (
        blank_round fuel (join vs)
        ∙ ap (Option.map (λ ws. [] ∷ ws)) (cind_values-join fuel vs h.1 l))
