-- ===== src/Config/Extract.antt =====
-- ExtractLineLoop of hfpd/configfile.cpp and the inner loop of ReadLoop do what reading the buffer byte
-- by byte does.
use nohands.Prelude.{
  drop_all, is_empty, ℕ, zero, suc, ◌+◌, ◌≤◌, ◌<◌, ◌≡◌, refl, ap, ◌∙◌, inl, inr, Bool, true, false,
  Bool-cases, Option, none, some, [], ◌∷◌, ◌++◌, ◌==◌, leb, length, drop, ℤ, arith, length-drop,
}
use nohands.Text.{Bytes}
use nohands.Text.Lines.{is_blank, blanks, line_of, past_line}
use nohands.Faults.{assertion, Result, ok, fault, ◌>>=◌}
use nohands.Config.Parse.{Context}
use nohands.Config.Read.{buf_size, Place, parse_string, extract_line, stuck, consumed, consume}
use nohands.Config.Scan.{scan_byte, scan, scan-blanks, scan-piece, scan-full, scan-line}

-- What is left in the buffer: the beginning of a line.
abbrev pub IsPiece : Bytes → Type 0
IsPiece [] = Unit
IsPiece (c ∷ s) = ((c == 0) ≡ false) × (is_blank c ≡ false) × (past_line s ≡ [])

pub first_byte :
    (layer : ℤ) (c : ℕ) (s : Bytes) (ctx : Context)
    → (c == 0) ≡ false
    → is_blank c ≡ false
    → scan layer (c ∷ s) [] ctx ≡ scan layer s (c ∷ []) ctx
unfolding scan scan_byte
first_byte layer c s ctx z e = rw (z, e) refl

pub piece-scan :
    (layer : ℤ) (d : Bytes) (ctx : Context)
    → IsPiece d
    → length d < buf_size
    → scan layer d [] ctx ≡ ok (ctx, some d)
unfolding scan
piece-scan layer [] ctx h l = refl
piece-scan layer (c ∷ s) ctx h l =
    first_byte layer c s ctx (h.0) (h.1) ∙ scan-piece layer s c [] ctx (h.2) (omega arith)

extract_blank :
    (layer : ℤ) (beyond : Bytes) (last : Bool) (c : ℕ) (s : Bytes) (ctx : Context)
    → (c == 0) ≡ false
    → is_blank c ≡ true
    → extract_line layer beyond last c s ctx ≡ ok (ctx, suc (blanks s))
unfolding extract_line
extract_blank layer beyond last c s ctx z e = rw (z, e) refl

extract_nul :
    (layer : ℤ) (beyond : Bytes) (last : Bool) (c : ℕ) (s : Bytes) (ctx : Context)
    → (c == 0) ≡ true
    → extract_line layer beyond last c s ctx ≡ fault assertion
unfolding extract_line
extract_nul layer beyond last c s ctx z = rw z refl

first_nul :
    (layer : ℤ) (c : ℕ) (s : Bytes) (ctx : Context)
    → (c == 0) ≡ true
    → scan layer (c ∷ s) [] ctx ≡ fault assertion
unfolding scan scan_byte
first_nul layer c s ctx z = rw z refl

first_blank :
    (layer : ℤ) (c : ℕ) (s : Bytes) (ctx : Context)
    → (c == 0) ≡ false
    → is_blank c ≡ true
    → scan layer (c ∷ s) [] ctx ≡ scan layer (drop (blanks s) s) [] ctx
unfolding scan scan_byte
first_blank layer c s ctx z e = rw (z, e) (scan-blanks layer s ctx)

pub scan_nil :
    (layer : ℤ) (acc : Bytes) (ctx : Context) → scan layer [] acc ctx ≡ ok (ctx, some acc)
unfolding scan
scan_nil layer acc ctx = refl

pub empty_nil : (s : Bytes) → is_empty s ≡ true → s ≡ []
empty_nil [] h = refl
empty_nil (c ∷ s) h = cc

extract_whole :
    (layer : ℤ) (beyond : Bytes) (last : Bool) (c : ℕ) (s : Bytes) (ctx : Context)
    → (c == 0) ≡ false
    → is_blank c ≡ false
    → is_empty (past_line s) ≡ false
    → extract_line layer beyond last c s ctx ≡ (
        parse_string layer (c ∷ line_of s) ctx >>= λ ctx'.
        ok (ctx', suc (suc (length (line_of s)))))
unfolding extract_line
extract_whole layer beyond last c s ctx z e h = rw (z, e, h) refl

extract_piece :
    (layer : ℤ) (beyond : Bytes) (c : ℕ) (s : Bytes) (ctx : Context)
    → IsPiece (c ∷ s)
    → extract_line layer beyond false c s ctx ≡ ok (ctx, 0)
unfolding extract_line
extract_piece layer beyond c s ctx h = rw (h.0, h.1, h.2) refl

pub extract_last :
    (layer : ℤ) (beyond : Bytes) (c : ℕ) (s : Bytes) (ctx : Context)
    → IsPiece (c ∷ s)
    → extract_line layer beyond true c s ctx
      ≡ (parse_string layer (c ∷ (s ++ beyond)) ctx >>= λ ctx'. ok (ctx', 0))
unfolding extract_line
extract_last layer beyond c s ctx h = rw (h.0, h.1, h.2) refl

length-blanks : (s : Bytes) → blanks s ≤ length s
unfolding blanks
length-blanks [] = omega arith
length-blanks (c ∷ s) = ground (arith, length-blanks s)

length-line_of : (s : Bytes) → is_empty (past_line s) ≡ false → length (line_of s) < length s
unfolding line_of past_line
length-line_of [] h = cc
length-line_of (c ∷ s) h = ground (arith, length-line_of s)

module _ (layer : ℤ) (k : Context × Place → Result (Context × Bool))
    (k' : Context × Option Bytes → Result (Context × Bool))
    (no : (ctx : Context) → k (ctx, none) ≡ k' (ctx, none))
    (yes : (ctx : Context) (start : ℕ) (d : Bytes)
      → start + length d < buf_size
      → IsPiece d
      → k (ctx, some (start, d)) ≡ k' (ctx, some d)) where
  consumed-scan :
      (again : ℕ → Bytes → Context → Result (Context × Place)) (start : ℕ) (unread : Bytes) (n : ℕ)
      (ctx : Context)
      → (n == 0) ≡ false
      → n ≤ length unread
      → (again (start + n) (drop n unread) ctx >>= k) ≡ (scan layer (drop n unread) [] ctx >>= k')
      → (consumed again start unread (ctx, n) >>= k) ≡ (scan layer (drop n unread) [] ctx >>= k')
  unfolding scan
  consumed-scan again start unread n ctx z l h =
      let b : leb n (length unread) ≡ true = ground arith in
      elim (Bool-cases (n == length unread)) [
        | inl e ↦
            let q : n ≡ length unread = ground arith in
            let r : drop n unread ≡ [] = ap (λ m. drop m unread) q ∙ drop_all unread in
            rw (z, b, e, r, consumed) (yes ctx 0 [] (omega arith) tt)
        | inr e ↦ rw (z, b, e, consumed) h
      ]

  stuck-scan :
      (start c : ℕ) (s : Bytes) (ctx : Context)
      → start + length (c ∷ s) ≤ buf_size
      → IsPiece (c ∷ s)
      → k (ctx, stuck start (c ∷ s)) ≡ (scan layer (c ∷ s) [] ctx >>= k')
  stuck-scan start c s ctx l p = elim (Bool-cases (start + length (c ∷ s) == buf_size)) [
    | inl e ↦ elim (Bool-cases (start == 0)) [
      | inl z ↦
          rw
            (
              first_byte layer c s ctx (p.0) (p.1),
              scan-full layer s c [] ctx (p.2) (omega arith) (ground arith),
              e,
              z,
            )
            (no ctx)
      | inr z ↦
          rw (piece-scan layer (c ∷ s) ctx p (ground arith), e, z)
            (yes ctx 0 (c ∷ s) (ground arith) p)
    ]
    | inr e ↦
        rw (piece-scan layer (c ∷ s) ctx p (ground arith), e)
          (yes ctx start (c ∷ s) (ground arith) p)
  ]

  -- A line has been parsed.
  parsed_bind :
      (m : Result Context) (n : ℕ) (f : Context × ℕ → Result (Context × Place))
      (g : Context → Result (Context × Option Bytes))
      → ((ctx : Context) → (f (ctx, n) >>= k) ≡ (g ctx >>= k'))
      → (((m >>= λ ctx. ok (ctx, n)) >>= f) >>= k) ≡ ((m >>= g) >>= k')
  parsed_bind (ok ctx) n f g h = h ctx
  parsed_bind (fault e) n f g h = refl

  -- ReadLoop goes on behind `n` bytes.
  onwards :
      (fuel start c : ℕ) (s : Bytes)
      → ((start' : ℕ) (d : Bytes) (ctx : Context)
          → length d < fuel
          → start' + length d ≤ buf_size
          → (consume layer fuel start' d ctx >>= k) ≡ (scan layer d [] ctx >>= k'))
      → length (c ∷ s) < suc fuel
      → start + length (c ∷ s) ≤ buf_size
      → (n : ℕ) (ctx : Context) → 0 < n
      → n ≤ length (c ∷ s)
      → (consumed (λ start' rest ctx'. consume layer fuel start' rest ctx') start (c ∷ s) (ctx, n)
          >>= k)
        ≡ (scan layer (drop n (c ∷ s)) [] ctx >>= k')
  onwards fuel start c s again h l n ctx z m =
      consumed-scan (λ start' rest ctx'. consume layer fuel start' rest ctx') start (c ∷ s) n ctx
        (ground arith) m
        (again (start + n) (drop n (c ∷ s)) ctx (ground (arith, length-drop n (c ∷ s)))
          (omega (arith, length-drop n (c ∷ s))))

  pub consume-scan :
      (fuel start : ℕ) (unread : Bytes) (ctx : Context)
      → length unread < fuel
      → start + length unread ≤ buf_size
      → (consume layer fuel start unread ctx >>= k) ≡ (scan layer unread [] ctx >>= k')
  unfolding consume
  consume-scan zero start unread ctx h l = absurd (omega arith)
  consume-scan (suc fuel) start [] ctx h l =
      rw (scan_nil layer [] ctx) (yes ctx 0 [] (omega arith) tt)
  consume-scan (suc fuel) start (c ∷ s) ctx h l = elim (Bool-cases (c == 0)) [
    | inl z ↦ rw (extract_nul layer [] false c s ctx z, first_nul layer c s ctx z) refl
    | inr z ↦ elim (Bool-cases (is_blank c)) [
      | inl e ↦
          rw (extract_blank layer [] false c s ctx z e, first_blank layer c s ctx z e)
            (onwards fuel start c s (consume-scan fuel) h l (suc (blanks s)) ctx (omega arith)
              (omega (arith, length-blanks s)))
      | inr e ↦ elim (Bool-cases (is_empty (past_line s))) [
        | inl p ↦
            let q : past_line s ≡ [] = empty_nil (past_line s) p in
            rw (extract_piece layer [] c s ctx (z, e, q)) (stuck-scan start c s ctx l (z, e, q))
        | inr p ↦
            rw
              (
                extract_whole layer [] false c s ctx z e p,
                first_byte layer c s ctx z e,
                scan-line layer s c [] ctx p (omega (arith, length-line_of s p)),
              )
              (parsed_bind (parse_string layer (c ∷ line_of s) ctx) (suc (suc (length (line_of s))))
                _ _
                (λ ctx'.
                  onwards fuel start c s (consume-scan fuel) h l (suc (suc (length (line_of s))))
                    ctx' (omega arith) (omega (arith, length-line_of s p))))
      ]
    ]
  ]
