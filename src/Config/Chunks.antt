-- ===== src/Config/Chunks.antt =====
-- ReadLoop of hfpd/configfile.cpp does the same however `read` cuts the file up.
use nohands.Prelude.{
  take-drop, append_assoc, length-take_le, is_empty, ℕ, zero, suc, ◌+◌, ◌-◌, ◌≤◌, ◌<◌, ◌≡◌, refl,
  ap, sym, ◌∙◌, inl, inr, Bool, true, false, not, ◌&&◌, Bool-cases, some, [], ◌∷◌, ◌++◌, ltb,
  if◌then◌else◌, length, take, drop, ℤ, arith, length-append, length-drop,
}
use nohands.Text.{Bytes}
use nohands.Faults.{Result, ok, ◌>>=◌}
use nohands.Faults.Post.{bind_assoc}
use nohands.Config.Parse.{Context}
use nohands.Config.Read.{
  buf_size, parse_string, read_in, last_line, after_consume, read_round, read_loop, read_file,
}
use nohands.Config.Scan.{scan, more_with, finish, scan_file, scan-append}
use nohands.Config.Extract.{IsPiece, piece-scan, extract_last, scan_nil, empty_nil, consume-scan}

taken : (n c : ℕ) (text : Bytes) → 0 < n → is_empty (take n (c ∷ text)) ≡ true → ⊥
taken zero c text h e = omega arith
taken (suc n) c text h e = cc

-- `read` gives nothing only at the end of the file.
read_end :
    (n room : ℕ) (text : Bytes) → 0 < room → is_empty (read_in n room text) ≡ true → text ≡ []
read_end n room [] h e = refl
read_end n zero (c ∷ text) h e = absurd (omega arith)
read_end n (suc room) (c ∷ text) h e = elim (Bool-cases (ltb n (suc room))) [
  | inl l ↦ absurd (taken (suc n) c text (omega arith) (rw l at e))
  | inr l ↦ absurd (taken (suc room) c text (omega arith) (rw l at e))
]

read_in-le : (n room : ℕ) (text : Bytes) → length (read_in n room text) ≤ room
read_in-le n room text = ground (arith, length-take_le (if ltb n room then suc n else room) text)

drop_none : (n : ℕ) (text : Bytes) → text ≡ [] → drop n text ≡ []
drop_none zero text h = h
drop_none (suc n) [] h = refl
drop_none (suc n) (c ∷ text) h = cc

empty_right : (a b : Bytes) → is_empty (a ++ b) ≡ true → is_empty b ≡ true
empty_right [] b h = h
empty_right (c ∷ a) b h = cc

length-empty : (a b : Bytes) → is_empty (a ++ b) ≡ false → 0 < length a + length b
length-empty [] [] h = cc
length-empty [] (c ∷ b) h = omega arith
length-empty (c ∷ a) b h = omega arith

not_empty : (a b : Bytes) → 0 < length a + length b → is_empty (a ++ b) ≡ false
not_empty [] [] h = absurd (omega arith)
not_empty [] (c ∷ b) h = refl
not_empty (c ∷ a) b h = refl

length-is_empty : (a : Bytes) → is_empty a ≡ false → 0 < length a
length-is_empty [] h = cc
length-is_empty (c ∷ a) h = omega arith

-- The fuel for the rounds behind one that has read `got`.
abbrev Enough : ℕ → Bytes → Bytes → Type 0
Enough fuel unread text =
    (length text < fuel) × (is_empty (unread ++ text) ≡ false → length text + 1 < fuel)

enough :
    (fuel n room : ℕ) (unread text d : Bytes)
    → 0 < room
    → Enough (suc fuel) unread text
    → is_empty (unread ++ read_in n room text) ≡ false
    → (not (is_empty d) && is_empty (read_in n room text)) ≡ false
    → Enough fuel d (drop (length (read_in n room text)) text)
enough fuel n room unread text d r h e f =
    let got = read_in n room text in
    let rest = drop (length got) text in
    let all = length-empty unread got e in
    elim (Bool-cases (is_empty got)) [
      | inl g ↦
          let t : text ≡ [] = read_end n room text r g in
          let k : length got ≡ 0 = ap length (empty_nil got g) in
          let dn : d ≡ [] = empty_nil d (ground arith) in
          let rn : rest ≡ [] = drop_none (length got) text t in
          (
            omega (arith, ap length rn, h.1 (not_empty unread text (omega arith))),
            λ q. absurd (omega (arith, length-empty d rest q, ap length dn, ap length rn)),
          )
      | inr g ↦
          let k : 0 < length got = length-is_empty got g in
          let m : length rest ≡ length text - length got = length-drop (length got) text in
          let whole : length got + length rest ≡ length text =
            sym (length-append got rest)
            ∙ ap length (take-drop (if ltb n room then suc n else room) text) in
          let more = h.1 (not_empty unread text (omega arith)) in (omega arith, λ q. omega arith)
    ]

module _ (layer : ℤ) (beyond : Bytes) (sizes : ℕ → ℕ) where
  last-scan :
      (d : Bytes) (ctx : Context)
      → IsPiece d
      → is_empty d ≡ false
      → (last_line layer beyond d ctx >>= λ ctx'. ok (ctx', true))
        ≡ finish layer beyond (ctx, some d)
  last-scan [] ctx p h = cc
  last-scan (c ∷ s) ctx p h = rw (extract_last layer beyond c s ctx p) (
      bind_assoc (parse_string layer (c ∷ (s ++ beyond)) ctx >>= λ ctx'. ok (ctx', 0)) _ _
      ∙ bind_assoc (parse_string layer (c ∷ (s ++ beyond)) ctx) _ _)

  -- What follows on the inner loop does what reading on byte by byte does.
  after-scan :
      (again : ℕ → Bytes → Context → Result (Context × Bool)) (got rest : Bytes)
      → (is_empty got ≡ true → rest ≡ [])
      → ((start : ℕ) (d : Bytes) (ctx : Context)
          → IsPiece d
          → start + length d < buf_size
          → (not (is_empty d) && is_empty got) ≡ false
          → again start d ctx ≡ (scan layer (d ++ rest) [] ctx >>= finish layer beyond))
      → (ctx : Context) (start : ℕ) (d : Bytes) → start + length d < buf_size
      → IsPiece d
      → after_consume again layer beyond got (ctx, some (start, d))
        ≡ (scan layer rest d ctx >>= finish layer beyond)
  after-scan again got rest r a ctx start d l p =
      elim (Bool-cases (not (is_empty d) && is_empty got)) [
        | inl e ↦
            let q : rest ≡ [] = r (ground arith) in
            rw (e, q, scan_nil layer d ctx, after_consume) (last-scan d ctx p (ground arith))
        | inr e ↦
            rw (e, after_consume)
              (a start d ctx p l e
                ∙ ap (λ m. m >>= finish layer beyond)
                    (scan-append layer d rest [] ctx
                      ∙ ap (λ m. m >>= more_with (scan layer rest))
                          (piece-scan layer d ctx p (omega arith))))
      ]

  round-scan :
      (again : ℕ → Bytes → Context → Result (Context × Bool)) (got rest : Bytes) (start : ℕ)
      (all : Bytes) (ctx : Context)
      → start + length all ≤ buf_size
      → (is_empty all ≡ true → rest ≡ [])
      → (is_empty got ≡ true → rest ≡ [])
      → (is_empty all ≡ false
          → (start' : ℕ) (d : Bytes) (ctx' : Context) → IsPiece d
          → start' + length d < buf_size
          → (not (is_empty d) && is_empty got) ≡ false
          → again start' d ctx' ≡ (scan layer (d ++ rest) [] ctx' >>= finish layer beyond))
      → read_round again layer beyond got start all ctx
        ≡ (scan layer (all ++ rest) [] ctx >>= finish layer beyond)
  round-scan again got rest start all ctx l ra rg a = elim (Bool-cases (is_empty all)) [
    | inl e ↦ rw (e, read_round, empty_nil all e, ra e, scan_nil layer [] ctx) refl
    | inr e ↦
        rw (e, read_round)
          (consume-scan layer (after_consume again layer beyond got)
              (λ r. more_with (scan layer rest) r >>= finish layer beyond) (λ ctx'. refl)
              (after-scan again got rest rg (a e)) (suc (length all)) start all ctx (omega arith) l
            ∙ sym (
                bind_assoc (scan layer all [] ctx) (more_with (scan layer rest))
                  (finish layer beyond))
            ∙ ap (λ m. m >>= finish layer beyond) (sym (scan-append layer all rest [] ctx)))
  ]

  read_loop-scan :
      (fuel : ℕ) (text : Bytes) (start : ℕ) (unread : Bytes) (ctx : Context)
      → IsPiece unread
      → start + length unread < buf_size
      → Enough fuel unread text
      → read_loop layer beyond (λ n. some (sizes n)) fuel text start unread ctx
        ≡ (scan layer (unread ++ text) [] ctx >>= finish layer beyond)
  unfolding read_loop
  read_loop-scan zero text start unread ctx p l h = absurd (omega (arith, h.0))
  read_loop-scan (suc fuel) text start unread ctx p l h =
      let n = sizes (length text) in
      let room = buf_size - (start + length unread) in
      let got = read_in n room text in
      let rest = drop (length got) text in
      let gone : is_empty got ≡ true → rest ≡ [] =
        λ e. drop_none (length got) text (read_end n room text (omega arith) e) in
      round-scan
        (λ start' d ctx'. read_loop layer beyond (λ n. some (sizes n)) fuel rest start' d ctx') got
        rest start (unread ++ got) ctx
        (omega (arith, length-append unread got, read_in-le n room text))
        (λ e. gone (empty_right unread got e)) gone
        (λ e start' d ctx' p' l' f.
          read_loop-scan fuel rest start' d ctx' p' l'
            (enough fuel n room unread text d (omega arith) h e f))
      ∙ ap (λ t. scan layer t [] ctx >>= finish layer beyond)
          (append_assoc unread got rest
            ∙ ap (λ t. unread ++ t) (take-drop (if ltb n room then suc n else room) text))

-- Whatever read gives each time, as long as it does not fail, ReadLoop comes to its end and does
-- what reading the file byte by byte does: the same lines reach ParseLine in the same order, a
-- line is refused exactly if 1024 bytes of it come without a line end, and the run ends in the
-- same fault, if it ends in one.
pub read_file-scan :
    (layer : ℤ) (beyond : Bytes) (sizes : ℕ → ℕ) (text : Bytes) (ctx : Context)
    → read_file layer beyond (λ n. some (sizes n)) text ctx ≡ scan_file layer beyond text ctx
unfolding read_file scan_file
read_file-scan layer beyond sizes text ctx =
    read_loop-scan layer beyond sizes (length text + 2) text 0 [] ctx tt (omega arith)
      (omega arith, λ e. omega arith)
