-- ===== src/Config/Reloaded.antt =====
-- Load of what Save of hfpd/configfile.cpp has written.
use nohands.Prelude.{
  ℕ, ◌+◌, ◌<◌, ◌≡◌, refl, ap, sym, ◌∙◌, inl, inr, true, false, Bool-cases, Option, none, some, List,
  [], ◌∷◌, ◌++◌, length, if◌then◌else◌, All, ℤ, arith, append_assoc, append_nil, length-append,
}
use nohands.Text.{Bytes, codes, str_eq, str_eq_comm}
use nohands.Faults.{ok, ◌>>=◌}
use nohands.Config.{Tuple, Section, Sections, find_tuple}
use nohands.Config.Parse.{Context, parse_line}
use nohands.Config.Read.{buf_size, load}
use nohands.Config.Scan.{scan, scan_file}
use nohands.Config.Chunks.{read_file-scan}
use nohands.Config.Save.{is_written, header_text, tuple_text, save_tuples, save_sections, save}
use nohands.Config.Tuples.{Distinct, find_tuple-append_other}
use nohands.Config.Lines.{
  IsPlain, IsPair, IsName, IsPlain-append, pair_line, read_tuple, within, scan-written,
  scan-newline, parse-header, parse-pair,
}

-- The tuples of a section that are written, as they are read back.
abbrev pub kept : ℤ → ℤ → List Tuple → List Tuple
kept layer to [] = []
kept layer to (t ∷ tups) =
    if is_written layer t
    then read_tuple to t.key t.value ∷ kept layer to tups
    else kept layer to tups

-- A section without such a tuple is not written.
abbrev unless_empty : Bytes → List Tuple → Sections
unless_empty name [] = []
unless_empty name (t ∷ tups) = record { name = name; tuples = t ∷ tups } ∷ []

abbrev pub reread : ℤ → ℤ → Sections → Sections
reread layer to [] = []
reread layer to (sec ∷ secs) =
    unless_empty sec.name (kept layer to sec.tuples) ++ reread layer to secs

-- A section that can be read as it is written.
abbrev pub IsReadable : Section → Type 0
IsReadable sec = IsName sec.name × Distinct sec.tuples × All (λ t. IsPair t.key t.value) sec.tuples

apart :
    (key : Bytes) (tups : List Tuple)
    → find_tuple key tups ≡ none
    → All (λ u. str_eq key u.key ≡ false) tups
unfolding find_tuple
apart key [] h = tt
apart key (t ∷ tups) h =
    (ground (arith, str_eq_comm key t.key), apart key tups (ground (arith, str_eq_comm key t.key)))

-- None of the keys has been read before.
abbrev AllNew : List Tuple → List Tuple → Type 0
AllNew done tups = All (λ u. find_tuple u.key done ≡ none) tups

still-AllNew :
    (done : List Tuple) (t : Tuple) (tups : List Tuple)
    → All (λ u. str_eq t.key u.key ≡ false) tups
    → AllNew done tups
    → AllNew (done ++ t ∷ []) tups
still-AllNew done t [] a n = tt
still-AllNew done t (u ∷ tups) a n =
    (find_tuple-append_other u.key done t (a.0) ∙ n.0, still-AllNew done t tups (a.1) (n.1))

none_before : (tups : List Tuple) → AllNew [] tups
unfolding find_tuple
none_before [] = tt
none_before (t ∷ tups) = (refl, none_before tups)

scan-pair :
    (to : ℤ) (key value rest : Bytes) (pre : Sections) (name : Bytes) (done : List Tuple)
    → IsPair key value
    → find_tuple key done ≡ none
    → scan to (pair_line key value ++ b'\n' ∷ rest) [] (within pre name done)
      ≡ scan to rest [] (within pre name (done ++ read_tuple to key value ∷ []))
scan-pair to [] value rest pre name done p n = absurd p.key_start
scan-pair to (a ∷ k) value rest pre name done p n =
    let l : length (k ++ b' ' ∷ b'=' ∷ b' ' ∷ value) + 1 < buf_size =
      omega (arith, p.fits, length-append k (b' ' ∷ b'=' ∷ b' ' ∷ value)) in
    scan-written to a (k ++ b' ' ∷ b'=' ∷ b' ' ∷ value) rest (within pre name done) (p.key_start.0)
      (IsPlain-append (a ∷ k) (b' ' ∷ b'=' ∷ b' ' ∷ value) p.key_plain
        ((refl, omega arith), ((refl, omega arith), ((refl, omega arith), p.value_plain))))
      l
    ∙ ap (λ m. m >>= scan to rest []) (parse-pair a k value p to pre name done n)

text_pair :
    (t : Tuple) (more rest : Bytes)
    → ((tuple_text t ++ more) ++ rest) ≡ (pair_line t.key t.value ++ b'\n' ∷ (more ++ rest))
text_pair t more rest =
    let b = b' ' ∷ b'=' ∷ b' ' ∷ t.value in
    append_assoc (t.key ++ (b ++ b'\n' ∷ [])) more rest
    ∙ ap (λ s. s ++ (more ++ rest)) (sym (append_assoc t.key b (b'\n' ∷ [])))
    ∙ append_assoc (t.key ++ b) (b'\n' ∷ []) (more ++ rest)

module _ (layer to : ℤ) (pre : Sections) (name rest : Bytes) where
  scan-tuples :
      (tups done : List Tuple)
      → All (λ t. IsPair t.key t.value) tups
      → Distinct tups
      → AllNew done tups
      → scan to (save_tuples layer name true tups ++ rest) [] (within pre name done)
        ≡ scan to rest [] (within pre name (done ++ kept layer to tups))
  unfolding save_tuples
  scan-tuples [] done p d n = ap (λ s. scan to rest [] (within pre name s)) (sym (append_nil done))
  scan-tuples (t ∷ tups) done p d n =
      let more = save_tuples layer name true tups in
      let t' = read_tuple to t.key t.value in
      elim (Bool-cases (is_written layer t)) [
        | inl e ↦
            rw (e, text_pair t more rest)
              (scan-pair to t.key t.value (more ++ rest) pre name done (p.0) (n.0)
                ∙ scan-tuples tups (done ++ t' ∷ []) (p.1) (d.1)
                    (still-AllNew done t' tups (apart t.key tups (d.0)) (n.1))
                ∙ ap (λ s. scan to rest [] (within pre name s))
                    (append_assoc done (t' ∷ []) (kept layer to tups)))
        | inr e ↦ rw e (scan-tuples tups done (p.1) (d.1) (n.1))
      ]

  -- The context behind a section, which is opened with its first tuple.
  abbrev opened : Option ℕ → List Tuple → Context
  opened cursec [] = record { secs = pre; cursec = cursec }
  opened cursec (t ∷ tups) = within pre name (t ∷ tups)

  scan-header :
      (more : Bytes) (cursec : Option ℕ)
      → IsName name
      → scan to (header_text name ++ more) [] (record { secs = pre; cursec = cursec })
        ≡ scan to more [] (within pre name [])
  scan-header more cursec h =
      let l : length (name ++ b']' ∷ []) + 1 < buf_size =
        omega (arith, h.name_fits, length-append name (b']' ∷ [])) in
      let ctx : Context = record { secs = pre; cursec = cursec } in
      scan-newline to (b'[' ∷ ((name ++ b']' ∷ b'\n' ∷ []) ++ more)) ctx
      ∙ ap (λ s. scan to (b'[' ∷ s) [] ctx)
          (append_assoc name (b']' ∷ b'\n' ∷ []) more
            ∙ sym (append_assoc name (b']' ∷ []) (b'\n' ∷ more)))
      ∙ scan-written to b'[' (name ++ b']' ∷ []) more ctx refl
          (
            (refl, omega arith),
            IsPlain-append name (b']' ∷ []) h.name_plain ((refl, omega arith), tt),
          )
          l
      ∙ ap (λ m. m >>= scan to more []) (parse-header to name ctx h)

  scan-section :
      (tups : List Tuple) (cursec : Option ℕ)
      → IsName name
      → All (λ t. IsPair t.key t.value) tups
      → Distinct tups
      → scan to
          (save_tuples layer name false tups ++ rest)
          []
          (record { secs = pre; cursec = cursec })
        ≡ scan to rest [] (opened cursec (kept layer to tups))
  unfolding save_tuples
  scan-section [] cursec h p d = refl
  scan-section (t ∷ tups) cursec h p d =
      let more = save_tuples layer name true tups in
      let t' = read_tuple to t.key t.value in
      elim (Bool-cases (is_written layer t)) [
        | inl e ↦ rw e (
            ap (λ s. scan to s [] (record { secs = pre; cursec = cursec }))
              (append_assoc (header_text name) (tuple_text t ++ more) rest)
            ∙ scan-header ((tuple_text t ++ more) ++ rest) cursec h
            ∙ ap (λ s. scan to s [] (within pre name [])) (text_pair t more rest)
            ∙ scan-pair to t.key t.value (more ++ rest) pre name [] (p.0)
                ((none_before (t ∷ tups)).0)
            ∙ scan-tuples tups (t' ∷ []) (p.1) (d.1)
                (still-AllNew [] t' tups (apart t.key tups (d.0)) (none_before tups)))
        | inr e ↦ rw e (scan-section tups cursec h (p.1) (d.1))
      ]

-- The context behind all sections.
abbrev behind : ℤ → ℤ → Sections → Context → Context
behind layer to [] ctx = ctx
behind layer to (sec ∷ secs) ctx =
    behind layer to secs
      (opened layer to ctx.secs sec.name [] ctx.cursec (kept layer to sec.tuples))

scan-sections :
    (layer to : ℤ) (secs : Sections) (ctx : Context)
    → All IsReadable secs
    → scan to (save_sections layer secs) [] ctx ≡ ok (behind layer to secs ctx, some [])
unfolding save_sections scan
scan-sections layer to [] ctx r = refl
scan-sections layer to (sec ∷ secs) ctx r =
    scan-section layer to ctx.secs sec.name (save_sections layer secs) sec.tuples ctx.cursec (r.0.0)
      (r.0.2) (r.0.1)
    ∙ scan-sections layer to secs _ (r.1)

opened-secs :
    (layer to : ℤ) (pre : Sections) (name : Bytes) (cursec : Option ℕ) (tups : List Tuple)
    → (opened layer to pre name [] cursec tups).secs ≡ (pre ++ unless_empty name tups)
opened-secs layer to pre name cursec [] = sym (append_nil pre)
opened-secs layer to pre name cursec (t ∷ tups) = refl

behind-secs :
    (layer to : ℤ) (secs : Sections) (ctx : Context)
    → (behind layer to secs ctx).secs ≡ (ctx.secs ++ reread layer to secs)
behind-secs layer to [] ctx = sym (append_nil ctx.secs)
behind-secs layer to (sec ∷ secs) ctx =
    let tups = kept layer to sec.tuples in
    behind-secs layer to secs (opened layer to ctx.secs sec.name [] ctx.cursec tups)
    ∙ ap (λ s. s ++ reread layer to secs) (opened-secs layer to ctx.secs sec.name ctx.cursec tups)
    ∙ append_assoc ctx.secs (unless_empty sec.name tups) (reread layer to secs)

comment :
    (to : ℤ) (s rest : Bytes) (ctx : Context)
    → IsPlain s
    → length s + 1 < buf_size
    → scan to (b'#' ∷ (s ++ b'\n' ∷ rest)) [] ctx ≡ scan to rest [] ctx
unfolding parse_line
comment to s rest ctx p l = scan-written to b'#' s rest ctx refl ((refl, omega arith), p) l

abbrev nothing : Context
nothing = record { secs = []; cursec = none }

abbrev first_comment : Bytes
first_comment = codes " Local settings file for hfpd"

abbrev second_comment : Bytes
second_comment = codes " Automatically generated, comments will be lost"

scan-saved :
    (layer to : ℤ) (secs : Sections)
    → All IsReadable secs
    → scan to ((save layer secs).0) [] nothing ≡ ok (behind layer to secs nothing, some [])
unfolding save
scan-saved layer to secs r =
    comment to first_comment (b'#' ∷ (second_comment ++ b'\n' ∷ save_sections layer secs)) nothing
      (ground arith) (omega arith)
    ∙ comment to second_comment (save_sections layer secs) nothing (ground arith) (omega arith)
    ∙ scan-sections layer to secs nothing r

-- Settings whose names, keys and values can be read as they are written, and in which no section
-- has a key twice, are saved, and the file is loaded into empty settings, in whatever pieces read
-- gives it, if no read fails and the current section of the context is null at first: Load
-- succeeds, and its settings are the sections that have a tuple to write, in their order, with
-- exactly the tuples that Save has written, in their order, now of the layer of Load.
pub load-save :
    (layer to : ℤ) (beyond : Bytes) (sizes : ℕ → ℕ) (secs : Sections)
    → All IsReadable secs
    → load to true beyond (λ n. some (sizes n)) ((save layer secs).0) none []
      ≡ ok (reread layer to secs, true)
unfolding load scan_file
load-save layer to beyond sizes secs r =
    rw (read_file-scan to beyond sizes ((save layer secs).0) nothing, scan-saved layer to secs r)
      (ap (λ s. ok (s, true)) (behind-secs layer to secs nothing))
