-- ===== src/Config/Loaded.antt =====
-- ReadLoop of hfpd/configfile.cpp fails no assertion on a file without a NUL, and leaves settings in
-- which no section has a key twice.
use nohands.Prelude.{
  ℕ, ◌≡◌, ◌≢◌, Bool, true, false, not, ◌==◌, leb, length, Option, none, some, [], ◌∷◌, ◌++◌,
  Bool-cases, inl, inr, if◌then◌else◌, ℤ, arith,
}
use nohands.Text.{Bytes, NoLead, Lacks, before, is_ws, is_nl}
use nohands.Text.Lines.{is_blank}
use nohands.Faults.{Result}
use nohands.Faults.Post.{Holds, Post-bind, Post-map, Post-if}
use nohands.Config.{Sections}
use nohands.Config.Tuples.{IsTidy}
use nohands.Config.Parse.{Context}
use nohands.Config.Read.{buf_size, parse_string, read_file, load}
use nohands.Config.Scan.{scan_byte, scan, more_with, finish, scan_file}
use nohands.Config.Chunks.{read_file-scan}
use nohands.Config.Parsed.{Parsed, parse_line-Parsed}

-- An unfinished line begins with no white space.
abbrev Begun : Context × Option Bytes → Type 0
Begun (ctx, none) = Parsed ctx
Begun (ctx, some acc) = Parsed ctx × NoLead acc

NoLead-before : (a : ℕ) (s : Bytes) → is_ws a ≡ false → NoLead (before 0 (a ∷ s))
unfolding before
NoLead-before a s h = ground arith

parse_string-Parsed :
    (layer : ℤ) (a : ℕ) (s : Bytes) (ctx : Context)
    → is_ws a ≡ false
    → Parsed ctx
    → Holds Parsed (parse_string layer (a ∷ s) ctx)
parse_string-Parsed layer a s ctx h p =
    parse_line-Parsed layer (before 0 (a ∷ s)) ctx (NoLead-before a s h) p

scan_byte-Begun :
    (layer : ℤ) (acc : Bytes) (c : ℕ) (ctx : Context)
    → c ≢ 0
    → Begun (ctx, some acc)
    → Holds Begun (scan_byte layer acc c ctx)
unfolding scan_byte
scan_byte-Begun layer [] c ctx n b =
    let z : (c == 0) ≡ false = ground arith in
    elim (Bool-cases (is_blank c)) [
      | inl e ↦ rw (z, e) (b.0, tt)
      | inr e ↦ let w : is_ws c ≡ false = ground arith in rw (z, e) (b.0, w)
    ]
scan_byte-Begun layer (a ∷ acc) c ctx n b =
    Post-if ⊥ Begun (is_nl c) _ _
      (λ e.
        Post-map ⊥ Parsed Begun (parse_string layer (a ∷ acc) ctx) (λ ctx'. (ctx', some []))
          (parse_string-Parsed layer a acc ctx (b.1) (b.0)) (λ ctx' p. (p, tt)))
      (λ e. elim (Bool-cases (leb buf_size (length (a ∷ (acc ++ c ∷ []))))) [
        | inl f ↦ rw f (b.0)
        | inr f ↦ rw f (b.0, b.1)
      ])

more-Begun :
    (k : Bytes → Context → Result (Context × Option Bytes))
    → ((acc : Bytes) (ctx : Context) → Begun (ctx, some acc) → Holds Begun (k acc ctx))
    → (r : Context × Option Bytes) → Begun r
    → Holds Begun (more_with k r)
more-Begun k h (ctx, none) b = b
more-Begun k h (ctx, some acc) b = h acc ctx b

scan-Begun :
    (layer : ℤ) (text acc : Bytes) (ctx : Context)
    → Lacks 0 text
    → Begun (ctx, some acc)
    → Holds Begun (scan layer text acc ctx)
unfolding scan
scan-Begun layer [] acc ctx l b = b
scan-Begun layer (c ∷ text) acc ctx l b =
    Post-bind ⊥ Begun Begun (scan_byte layer acc c ctx) _ (scan_byte-Begun layer acc c ctx (l.0) b)
      (more-Begun _ (λ acc' ctx' b'. scan-Begun layer text acc' ctx' (l.1) b'))

finish-Parsed :
    (layer : ℤ) (beyond : Bytes) (r : Context × Option Bytes)
    → Begun r
    → Holds (λ r'. Parsed r'.0) (finish layer beyond r)
finish-Parsed layer beyond (ctx, none) b = b
finish-Parsed layer beyond (ctx, some []) b = b.0
finish-Parsed layer beyond (ctx, some (c ∷ s)) b =
    Post-map ⊥ Parsed _ (parse_string layer (c ∷ (s ++ beyond)) ctx) (λ ctx'. (ctx', true))
      (parse_string-Parsed layer c (s ++ beyond) ctx (b.1) (b.0)) (λ ctx' p. p)

-- No assertion fails, and no section has a key twice.
read_file-Parsed :
    (layer : ℤ) (beyond : Bytes) (sizes : ℕ → ℕ) (text : Bytes) (ctx : Context)
    → Lacks 0 text
    → Parsed ctx
    → Holds (λ r. Parsed r.0) (read_file layer beyond (λ n. some (sizes n)) text ctx)
unfolding scan_file
read_file-Parsed layer beyond sizes text ctx l p = rw (read_file-scan layer beyond sizes text ctx) (
    Post-bind ⊥ Begun _ (scan layer text [] ctx) (finish layer beyond)
      (scan-Begun layer text [] ctx l (p, tt)) (finish-Parsed layer beyond))

-- Load of a file without a NUL byte, where no read fails and the current section of the context is
-- taken to be null at first, fails no assertion, whatever the lines are: no section of the
-- settings that it leaves has a key twice, if none had before.
pub load-IsTidy :
    (layer : ℤ) (opened : Bool) (beyond : Bytes) (sizes : ℕ → ℕ) (text : Bytes) (secs : Sections)
    → Lacks 0 text
    → IsTidy secs
    → Holds (λ r. IsTidy r.0) (load layer opened beyond (λ n. some (sizes n)) text none secs)
unfolding load
load-IsTidy layer opened beyond sizes text secs l t =
    Post-if ⊥ (λ r. IsTidy r.0) (not opened) _ _ (λ _. t)
      (λ _.
        Post-map ⊥ (λ r. Parsed r.0) (λ r. IsTidy r.0)
          (read_file layer beyond (λ n. some (sizes n)) text
            (record { secs = secs; cursec = none }))
          _
          (read_file-Parsed layer beyond sizes text (record { secs = secs; cursec = none }) l
            (record { tidy = t; current = tt }))
          (λ r p. kept r.1 r.0.secs p.tidy))
  where
    kept : (res : Bool) (secs' : Sections) → IsTidy secs' → IsTidy (if res then secs' else [])
    kept true secs' t' = t'
    kept false secs' t' = tt
