-- ===== src/Config/Scan.antt =====
-- The reader of hfpd/configfile.cpp does the same however `read` cuts the file up: what reading it byte
-- by byte does.
use nohands.Prelude.{
  append_assoc, append_nil, is_empty, ℕ, suc, ◌+◌, ◌≤◌, ◌<◌, ◌≡◌, refl, ap, sym, ◌∙◌, inl, inr,
  Bool, true, false, not, Bool-cases, Option, none, some, [], ◌∷◌, ◌++◌, ◌==◌, leb, ltb,
  if◌then◌else◌, length, drop, ℤ, arith, length-append,
}
use nohands.Text.{Bytes, is_nl}
use nohands.Text.Lines.{is_blank, blanks, line_of, past_line}
use nohands.Faults.{Result, ok, fault, ◌>>=◌, ◌>>◌, assert}
use nohands.Config.Parse.{Context}
use nohands.Config.Read.{buf_size, parse_string}

-- One byte more, behind those of an unfinished line; none if the line is too long.
unfoldable pub scan_byte : ℤ → Bytes → ℕ → Context → Result (Context × Option Bytes)
scan_byte layer [] c ctx = do
  assert (not (c == 0))
  ok (ctx, some (if is_blank c then [] else c ∷ []))
scan_byte layer (a ∷ acc) c ctx =
    if is_nl c
    then (do ctx' ← parse_string layer (a ∷ acc) ctx; ok (ctx', some []))
    else ok (
      ctx,
      if leb buf_size (length (a ∷ (acc ++ c ∷ []))) then none else some (a ∷ (acc ++ c ∷ [])),
    )

abbrev pub more_with {ℓ} :
    {A : Type ℓ}
    → (Bytes → Context → Result (Context × Option A))
    → Context × Option Bytes
    → Result (Context × Option A)
more_with k (ctx, none) = ok (ctx, none)
more_with k (ctx, some acc) = k acc ctx

unfoldable pub scan : ℤ → Bytes → Bytes → Context → Result (Context × Option Bytes)
unfolding scan_byte
scan layer [] acc ctx = ok (ctx, some acc)
scan layer (c ∷ s) acc ctx =
    scan_byte layer acc c ctx >>= more_with (λ acc' ctx'. scan layer s acc' ctx')

-- The end of the file, behind an unfinished line.
abbrev pub finish : ℤ → Bytes → Context × Option Bytes → Result (Context × Bool)
finish layer beyond (ctx, none) = ok (ctx, false)
finish layer beyond (ctx, some []) = ok (ctx, true)
finish layer beyond (ctx, some (c ∷ s)) = do
  ctx' ← parse_string layer (c ∷ (s ++ beyond)) ctx
  ok (ctx', true)

-- What reading the file byte by byte does.
unfoldable pub scan_file : ℤ → Bytes → Bytes → Context → Result (Context × Bool)
unfolding scan
scan_file layer beyond text ctx = scan layer text [] ctx >>= finish layer beyond

bind-more :
    (m : Result (Context × Option Bytes))
    (k k' t : Bytes → Context → Result (Context × Option Bytes))
    → ((acc : Bytes) (ctx : Context) → k acc ctx ≡ (k' acc ctx >>= more_with t))
    → (m >>= more_with k) ≡ ((m >>= more_with k') >>= more_with t)
bind-more (fault e) k k' t h = refl
bind-more (ok (ctx, none)) k k' t h = refl
bind-more (ok (ctx, some acc)) k k' t h = h acc ctx

pub scan-append :
    (layer : ℤ) (s t acc : Bytes) (ctx : Context)
    → scan layer (s ++ t) acc ctx ≡ (scan layer s acc ctx >>= more_with (scan layer t))
unfolding scan
scan-append layer [] t acc ctx = refl
scan-append layer (c ∷ s) t acc ctx =
    bind-more (scan_byte layer acc c ctx) _ _ (scan layer t) (scan-append layer s t)

blank_byte : (c : ℕ) → is_blank c ≡ true → (c == 0) ≡ false
blank_byte c h = ground arith

no_blanks : (c : ℕ) (s : Bytes) → is_blank c ≡ false → blanks (c ∷ s) ≡ 0
unfolding blanks
no_blanks c s e = rw e refl

pub scan-blanks :
    (layer : ℤ) (s : Bytes) (ctx : Context)
    → scan layer s [] ctx ≡ scan layer (drop (blanks s) s) [] ctx
unfolding scan blanks
scan-blanks layer [] ctx = refl
scan-blanks layer (c ∷ s) ctx = elim (Bool-cases (is_blank c)) [
  | inl e ↦ rw (e, blank_byte c e) (scan-blanks layer s ctx)
  | inr e ↦ ap (λ n. scan layer (drop n (c ∷ s)) [] ctx) (sym (no_blanks c s e))
]

length-snoc : (a : Bytes) (c : ℕ) → length (a ++ c ∷ []) ≡ length a + 1
length-snoc a c = length-append a (c ∷ [])

byte_in :
    (layer : ℤ) (a : ℕ) (acc : Bytes) (c : ℕ) (ctx : Context)
    → is_nl c ≡ false
    → length acc + 2 < buf_size
    → scan_byte layer (a ∷ acc) c ctx ≡ ok (ctx, some (a ∷ (acc ++ c ∷ [])))
unfolding scan_byte
byte_in layer a acc c ctx e l =
    let f : leb buf_size (length (a ∷ (acc ++ c ∷ []))) ≡ false =
      ground (arith, length-snoc acc c) in
    rw (e, f) refl

byte_full :
    (layer : ℤ) (a : ℕ) (acc : Bytes) (c : ℕ) (ctx : Context)
    → is_nl c ≡ false
    → buf_size ≤ length acc + 2
    → scan_byte layer (a ∷ acc) c ctx ≡ ok (ctx, none)
unfolding scan_byte
byte_full layer a acc c ctx e l =
    let f : leb buf_size (length (a ∷ (acc ++ c ∷ []))) ≡ true =
      ground (arith, length-snoc acc c) in
    rw (e, f) refl

-- An unfinished line, behind which no line end follows.
pub scan-piece :
    (layer : ℤ) (s : Bytes) (a : ℕ) (acc : Bytes) (ctx : Context)
    → past_line s ≡ []
    → length acc + length s + 1 < buf_size
    → scan layer s (a ∷ acc) ctx ≡ ok (ctx, some (a ∷ (acc ++ s)))
unfolding scan past_line
scan-piece layer [] a acc ctx h l = rw (append_nil acc) refl
scan-piece layer (c ∷ s) a acc ctx h l = elim (Bool-cases (is_nl c)) [
  | inl e ↦ absurd (ground arith)
  | inr e ↦ rw (byte_in layer a acc c ctx e (omega arith)) (
      scan-piece layer s a (acc ++ c ∷ []) ctx (ground arith) (omega (arith, length-snoc acc c))
      ∙ ap (λ t. ok (ctx, some (a ∷ t))) (append_assoc acc (c ∷ []) s))
]

-- One that is too long for the buffer.
pub scan-full :
    (layer : ℤ) (s : Bytes) (a : ℕ) (acc : Bytes) (ctx : Context)
    → past_line s ≡ []
    → length acc + 1 < buf_size
    → buf_size ≤ length acc + length s + 1
    → scan layer s (a ∷ acc) ctx ≡ ok (ctx, none)
unfolding scan past_line
scan-full layer [] a acc ctx h l m = absurd (omega arith)
scan-full layer (c ∷ s) a acc ctx h l m = elim (Bool-cases (is_nl c)) [
  | inl e ↦ absurd (ground arith)
  | inr e ↦ elim (Bool-cases (ltb (length acc + 2) buf_size)) [
    | inl f ↦ rw (byte_in layer a acc c ctx e (ground arith)) (
        scan-full layer s a (acc ++ c ∷ []) ctx (ground arith) (ground (arith, length-snoc acc c))
          (omega (arith, length-snoc acc c)))
    | inr f ↦ rw (byte_full layer a acc c ctx e (ground arith)) refl
  ]
]

bind-done :
    (m : Result Context) (k : Bytes → Context → Result (Context × Option Bytes))
    → ((m >>= λ ctx'. ok (ctx', some [])) >>= more_with k) ≡ (m >>= k [])
bind-done (ok ctx) k = refl
bind-done (fault e) k = refl

line_end : (c : ℕ) (s : Bytes) → is_nl c ≡ true → line_of (c ∷ s) ≡ []
unfolding line_of
line_end c s e = rw e refl

line_in : (c : ℕ) (s : Bytes) → is_nl c ≡ false → line_of (c ∷ s) ≡ c ∷ line_of s
unfolding line_of
line_in c s e = rw e refl

byte_end :
    (layer : ℤ) (a : ℕ) (acc : Bytes) (c : ℕ) (ctx : Context)
    → is_nl c ≡ true
    → scan_byte layer (a ∷ acc) c ctx
      ≡ (parse_string layer (a ∷ acc) ctx >>= λ ctx'. ok (ctx', some []))
unfolding scan_byte
byte_end layer a acc c ctx e = rw e refl

-- A line with its end, and what is behind it.
pub scan-line :
    (layer : ℤ) (s : Bytes) (a : ℕ) (acc : Bytes) (ctx : Context)
    → is_empty (past_line s) ≡ false
    → length acc + length (line_of s) + 1 < buf_size
    → scan layer s (a ∷ acc) ctx ≡ (
        parse_string layer (a ∷ (acc ++ line_of s)) ctx
        >>= scan layer (drop (suc (length (line_of s))) s) [])
unfolding scan past_line
scan-line layer [] a acc ctx h l = cc
scan-line layer (c ∷ s) a acc ctx h l = elim (Bool-cases (is_nl c)) [
  | inl e ↦
      rw (byte_end layer a acc c ctx e, line_end c s e, append_nil acc)
        (bind-done (parse_string layer (a ∷ acc) ctx) (λ acc' ctx'. scan layer s acc' ctx'))
  | inr e ↦
      let l' : length acc + (length (line_of s) + 1) + 1 < buf_size =
        omega (arith, ap length (line_in c s e)) in
      rw (byte_in layer a acc c ctx e (omega arith), line_in c s e)
        (scan-line layer s a (acc ++ c ∷ []) ctx (ground arith) (omega (arith, length-snoc acc c))
          ∙ ap
              (λ t.
                parse_string layer (a ∷ t) ctx
                >>= scan layer (drop (suc (length (line_of s))) s) [])
              (append_assoc acc (c ∷ []) (line_of s)))
]
