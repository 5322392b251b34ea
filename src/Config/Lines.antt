-- ===== src/Config/Lines.antt =====
-- The lines that Save of hfpd/configfile.cpp writes, as ReadLoop and ParseLine read them.
use nohands.Prelude.{
  is_empty, ℕ, suc, ◌+◌, ◌<◌, ◌≡◌, ◌≢◌, refl, ap, sym, ◌∙◌, false, none, some, List, [], ◌∷◌, ◌++◌,
  ◌==◌, length, get_elem?, set, drop, All, ℤ, arith, append_assoc,
}
use nohands.Text.{
  Bytes, NoLead, NoTrail, Lacks, before, before-append, from-append, skip_ws, skip_ws_noop,
  trim_end, trim_end_noop, trim_cons, is_ws, is_nl,
}
use nohands.Text.Lines.{is_blank, line_of, past_line}
use nohands.Faults.{ok, ◌>>=◌}
use nohands.Config.{
  Tuple, Section, Sections, create_section, create_tuple, find_tuple, delete_tuple,
}
use nohands.Config.Parse.{
  Context, merge_tuple, section_header, key_value, key_of, value_in, no_key, store_in, parse_line,
  past_one,
}
use nohands.Config.Read.{buf_size, parse_string}
use nohands.Config.Scan.{scan, scan_byte, scan-line}
use nohands.Config.Extract.{first_byte}

-- No line end and no NUL.
abbrev pub IsPlain : Bytes → Type 0
IsPlain s = All (λ c. (is_nl c ≡ false) × (c ≢ 0)) s

-- What is neither white space, a comment, a header, nor the NUL.
abbrev pub Starts : Bytes → Type 0
Starts [] = ⊥
Starts (c ∷ s) =
    (is_ws c ≡ false) × ((c == b'#') ≡ false) × ((c == b'[') ≡ false) × ((c == b'=') ≡ false)

-- A tuple that can be read as it is written.
pub record IsPair (key value : Bytes) : Type 0 where
  pub key_start : Starts key
  pub key_plain : IsPlain key
  pub key_lacks : Lacks b'=' key
  pub key_end : NoTrail key
  pub value_plain : IsPlain value
  pub value_start : NoLead value
  pub value_end : NoTrail value
  pub fits : length key + length value + 3 < buf_size

pub record IsName (name : Bytes) : Type 0 where
  pub some_name : is_empty name ≡ false
  pub name_start : NoLead name
  pub name_plain : IsPlain name
  pub name_lacks : Lacks b']' name
  pub name_fits : length name + 2 < buf_size

line_of-plain : (s rest : Bytes) → IsPlain s → line_of (s ++ b'\n' ∷ rest) ≡ s
unfolding line_of
line_of-plain [] rest h = refl
line_of-plain (c ∷ s) rest h = ground (arith, line_of-plain s rest h.1)

past_line-plain : (s rest : Bytes) → IsPlain s → is_empty (past_line (s ++ b'\n' ∷ rest)) ≡ false
unfolding past_line
past_line-plain [] rest h = refl
past_line-plain (c ∷ s) rest h = ground (arith, past_line-plain s rest h.1)

drop-line : (s rest : Bytes) → drop (suc (length s)) (s ++ b'\n' ∷ rest) ≡ rest
drop-line [] rest = refl
drop-line (c ∷ s) rest = drop-line s rest

before-plain : (s : Bytes) → IsPlain s → before 0 s ≡ s
unfolding before
before-plain [] h = refl
before-plain (c ∷ s) h = ground (arith, before-plain s h.1)

pub IsPlain-append : (a b : Bytes) → IsPlain a → IsPlain b → IsPlain (a ++ b)
IsPlain-append [] b h k = k
IsPlain-append (c ∷ a) b h k = (h.0, IsPlain-append a b h.1 k)

-- A whole line is parsed.
pub scan-written :
    (layer : ℤ) (c : ℕ) (s rest : Bytes) (ctx : Context)
    → is_ws c ≡ false
    → IsPlain (c ∷ s)
    → length s + 1 < buf_size
    → scan layer (c ∷ (s ++ b'\n' ∷ rest)) [] ctx
      ≡ (parse_line layer (c ∷ s) ctx >>= scan layer rest [])
scan-written layer c s rest ctx w p l =
    let z : (c == 0) ≡ false = ground arith in
    let e : is_blank c ≡ false = ground arith in
    let ln = line_of-plain s rest p.1 in
    first_byte layer c (s ++ b'\n' ∷ rest) ctx z e
    ∙ scan-line layer (s ++ b'\n' ∷ rest) c [] ctx (past_line-plain s rest p.1)
        (omega (arith, ap length ln))
    ∙ ap
        (λ t.
          parse_string layer (c ∷ t) ctx
          >>= scan layer (drop (suc (length t)) (s ++ b'\n' ∷ rest)) [])
        ln
    ∙ ap (λ t. parse_string layer (c ∷ s) ctx >>= scan layer t []) (drop-line s rest)
    ∙ ap (λ t. parse_line layer t ctx >>= scan layer rest []) (before-plain (c ∷ s) p)

-- An empty line is skipped.
pub scan-newline :
    (layer : ℤ) (rest : Bytes) (ctx : Context)
    → scan layer (b'\n' ∷ rest) [] ctx ≡ scan layer rest [] ctx
unfolding scan scan_byte
scan-newline layer rest ctx = refl

pub parse-header :
    (layer : ℤ) (name : Bytes) (ctx : Context)
    → IsName name
    → parse_line layer (b'[' ∷ (name ++ b']' ∷ [])) ctx
      ≡ ok (record {
        secs = ctx.secs ++ record { name = name; tuples = [] } ∷ [];
        cursec = some (length ctx.secs);
      })
unfolding parse_line section_header create_section
parse-header layer [] ctx h = absurd (ground (arith, h.some_name))
parse-header layer (a ∷ name) ctx h =
    let k = skip_ws_noop (a ∷ (name ++ b']' ∷ [])) h.name_start in
    let b = before-append b']' (a ∷ name) [] h.name_lacks in
    let f = from-append b']' (a ∷ name) [] h.name_lacks in rw (k, b, f) refl

trim-blank : (s : Bytes) → NoTrail s → trim_end (s ++ b' ' ∷ []) ≡ s
unfolding trim_end trim_cons
trim-blank [] h = refl
trim-blank (c ∷ []) h = rw h refl
trim-blank (c ∷ d ∷ s) h = rw (trim-blank (d ∷ s) h) refl

Lacks-blank : (s : Bytes) → Lacks b'=' s → Lacks b'=' (s ++ b' ' ∷ [])
Lacks-blank [] h = (omega arith, tt)
Lacks-blank (c ∷ s) h = (h.0, Lacks-blank s h.1)

abbrev pub pair_line : Bytes → Bytes → Bytes
pair_line key value = key ++ b' ' ∷ b'=' ∷ b' ' ∷ value

-- The tuple that a line leaves in settings without its key.
abbrev pub read_tuple : ℤ → Bytes → Bytes → Tuple
read_tuple layer key value = record {
  key = key;
  value = value;
  layer = layer;
  lowest_layer = layer;
}

delete_none :
    (key : Bytes) (tups : List Tuple) → find_tuple key tups ≡ none → delete_tuple key tups ≡ tups
unfolding find_tuple delete_tuple
delete_none key [] h = refl
delete_none key (t ∷ tups) h = ground (arith, delete_none key tups)

pub merge-new :
    (layer : ℤ) (key value : Bytes) (tups : List Tuple)
    → is_empty key ≡ false
    → find_tuple key tups ≡ none
    → merge_tuple layer key value tups ≡ ok (tups ++ read_tuple layer key value ∷ [])
unfolding merge_tuple create_tuple
merge-new layer key value tups e h = rw (h, delete_none key tups h, e) refl

pub get-last :
    (pre : Sections) (sec : Section) → get_elem? (pre ++ sec ∷ []) (length pre) ≡ some sec
get-last [] sec = refl
get-last (u ∷ pre) sec = get-last pre sec

pub set-last :
    (pre : Sections) (sec sec' : Section)
    → set (pre ++ sec ∷ []) (length pre) sec' ≡ (pre ++ sec' ∷ [])
set-last [] sec sec' = refl
set-last (u ∷ pre) sec sec' = ap (λ s. u ∷ s) (set-last pre sec sec')

-- Settings whose last section is the current one.
abbrev pub within : Sections → Bytes → List Tuple → Context
within pre name tups = record {
  secs = pre ++ record { name = name; tuples = tups } ∷ [];
  cursec = some (length pre);
}

pub store-new :
    (layer : ℤ) (key value : Bytes) (pre : Sections) (name : Bytes) (tups : List Tuple)
    → is_empty key ≡ false
    → find_tuple key tups ≡ none
    → store_in
        (get_elem? (within pre name tups).secs (length pre))
        (length pre)
        layer
        key
        value
        (within pre name tups)
      ≡ ok (within pre name (tups ++ read_tuple layer key value ∷ []))
store-new layer key value pre name tups e h =
    rw
      (
        get-last pre (record { name = name; tuples = tups }),
        merge-new layer key value tups e h,
        set-last pre (record { name = name; tuples = tups })
            (record { name = name; tuples = tups ++ read_tuple layer key value ∷ [] }),
      )
      refl

module _ (a : ℕ) (k value : Bytes) (h : IsPair (a ∷ k) value) where
  as_parts : pair_line (a ∷ k) value ≡ (((a ∷ k) ++ b' ' ∷ []) ++ b'=' ∷ b' ' ∷ value)
  as_parts = sym (append_assoc (a ∷ k) (b' ' ∷ []) (b'=' ∷ b' ' ∷ value))

  key_of-pair : key_of (pair_line (a ∷ k) value) ≡ a ∷ k
  key_of-pair =
      ap (λ l. trim_end (before b'=' l)) as_parts
      ∙ ap trim_end (
          before-append b'=' ((a ∷ k) ++ b' ' ∷ []) (b' ' ∷ value)
            (Lacks-blank (a ∷ k) h.key_lacks))
      ∙ trim-blank (a ∷ k) h.key_end

  value_in-pair : value_in (pair_line (a ∷ k) value) ≡ value
  unfolding skip_ws
  value_in-pair =
      ap value_in as_parts
      ∙ ap (λ l. trim_end (skip_ws (past_one l)))
          (from-append b'=' ((a ∷ k) ++ b' ' ∷ []) (b' ' ∷ value) (Lacks-blank (a ∷ k) h.key_lacks))
      ∙ ap trim_end (skip_ws_noop value h.value_start)
      ∙ trim_end_noop value h.value_end

  has_key : no_key (pair_line (a ∷ k) value) ≡ false
  has_key =
      ap no_key as_parts
      ∙ (let f =
            from-append b'=' ((a ∷ k) ++ b' ' ∷ []) (b' ' ∷ value)
              (Lacks-blank (a ∷ k) h.key_lacks) in
          let b =
            before-append b'=' ((a ∷ k) ++ b' ' ∷ []) (b' ' ∷ value)
              (Lacks-blank (a ∷ k) h.key_lacks) in
          rw (f, b) refl)

  pub parse-pair :
      (layer : ℤ) (pre : Sections) (name : Bytes) (tups : List Tuple)
      → find_tuple (a ∷ k) tups ≡ none
      → parse_line layer (pair_line (a ∷ k) value) (within pre name tups)
        ≡ ok (within pre name (tups ++ read_tuple layer (a ∷ k) value ∷ []))
  unfolding parse_line key_value
  parse-pair layer pre name tups n =
      let s = h.key_start in
      rw (s.1, s.2, has_key, key_of-pair, value_in-pair)
        (store-new layer (a ∷ k) value pre name tups refl n)
