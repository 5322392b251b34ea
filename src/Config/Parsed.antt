-- ===== src/Config/Parsed.antt =====
-- `ParseLine` of hfpd/configfile.cpp fails no assertion on the lines that it is given, and keeps the
-- keys of a section apart.
use nohands.Prelude.{
  is_empty, ℕ, zero, suc, ◌<◌, ◌≡◌, ◌≢◌, refl, ap, inl, inr, false, ◌||◌, ◌==◌, Bool-cases, Option,
  none, some, [], ◌∷◌, ℤ, arith, get_elem?, set, length, length-append,
}
use nohands.Text.{Bytes, NoLead, skip_ws, before, from, trim_end-lead}
use nohands.Faults.Post.{Holds, Post-map, Post-if}
use nohands.Config.{Section, Sections, create_section}
use nohands.Config.Parse.{
  Context, no_key, key_of, value_in, merge_tuple, section_header, store_in, key_value, parse_line,
}
use nohands.Config.Tuples.{Distinct, IsTidy}
use nohands.Config.Lookup.{append-IsTidy}
use nohands.Config.Layers.{Merged, merge_tuple-Merged}

-- The current section is one of the sections.
abbrev pub IsWithin : Option ℕ → Sections → Type 0
IsWithin none secs = Unit
IsWithin (some i) secs = i < length secs

pub record Parsed (ctx : Context) : Type 0 where
  pub tidy : IsTidy ctx.secs
  pub current : IsWithin ctx.cursec ctx.secs

not_empty : (a : Bytes) → a ≢ [] → is_empty a ≡ false
not_empty [] h = absurd (h refl)
not_empty (c ∷ a) h = refl

pub key_there : (line : Bytes) → NoLead line → no_key line ≡ false → is_empty (key_of line) ≡ false
unfolding before from
key_there [] n h = cc
key_there (c ∷ line) n h = elim (Bool-cases (c == b'=')) [
  | inl q ↦ absurd (ground arith)
  | inr q ↦ rw q (not_empty _ (trim_end-lead c (before b'=' line) n))
]

section_there :
    (i : ℕ) (secs : Sections)
    → i < length secs
    → IsTidy secs
    → (sec : Section) × (get_elem? secs i ≡ some sec) × Distinct sec.tuples
section_there i [] h t = absurd (omega arith)
section_there zero (u ∷ secs) h t = (u, refl, t.0)
section_there (suc i) (u ∷ secs) h t = section_there i secs (omega arith) t.1

set-IsTidy :
    (i : ℕ) (secs : Sections) (sec : Section)
    → Distinct sec.tuples
    → IsTidy secs
    → IsTidy (set secs i sec)
set-IsTidy i [] sec d t = tt
set-IsTidy zero (u ∷ secs) sec d t = (d, t.1)
set-IsTidy (suc i) (u ∷ secs) sec d t = (t.0, set-IsTidy i secs sec d t.1)

length-set : (i : ℕ) (secs : Sections) (sec : Section) → length (set secs i sec) ≡ length secs
length-set i [] sec = refl
length-set zero (u ∷ secs) sec = refl
length-set (suc i) (u ∷ secs) sec = ap suc (length-set i secs sec)

store-Parsed :
    (layer : ℤ) (key value : Bytes) (i : ℕ) (ctx : Context)
    → is_empty key ≡ false
    → ctx.cursec ≡ some i
    → Parsed ctx
    → Holds Parsed (store_in (get_elem? ctx.secs i) i layer key value ctx)
store-Parsed layer key value i ctx k e p =
    let there = section_there i ctx.secs (rw e at p.current) p.tidy in
    let sec = there.0 in
    rw there.1 (
      Post-map ⊥ (Merged layer key value sec.tuples) Parsed (merge_tuple layer key value sec.tuples)
        _ (merge_tuple-Merged layer key value sec.tuples k there.2)
        (λ tups m. record {
          tidy = set-IsTidy i ctx.secs (record sec { tuples = tups }) m.distinct p.tidy;
          current =
              rw e (rw (length-set i ctx.secs (record sec { tuples = tups })) (rw e at p.current));
        }))

key_value-Parsed :
    (layer : ℤ) (line : Bytes) (o : Option ℕ) (ctx : Context)
    → NoLead line
    → ctx.cursec ≡ o
    → Parsed ctx
    → Holds Parsed (key_value layer line o ctx)
unfolding key_value
key_value-Parsed layer line none ctx n e p = p
key_value-Parsed layer line (some i) ctx n e p =
    Post-if ⊥ Parsed (no_key line) _ _ (λ _. p)
      (λ h.
        rw (key_there line n h)
          (store-Parsed layer (key_of line) (value_in line) i ctx (key_there line n h) e p))

header-Parsed : (part : Bytes) (ctx : Context) → Parsed ctx → Holds Parsed (section_header part ctx)
unfolding section_header create_section
header-Parsed part ctx p =
    Post-if ⊥ Parsed (is_empty (from b']' part) || is_empty (before b']' part)) _ _ (λ _. p)
      (λ h.
        let e : is_empty (before b']' part) ≡ false = ground arith in
        rw e (record {
          tidy = append-IsTidy ctx.secs (record { name = before b']' part; tuples = [] }) tt p.tidy;
          current = ground (
            arith,
            length-append ctx.secs (record { name = before b']' part; tuples = [] } ∷ []),
          );
        }))

-- On a line that begins with no white space, ParseLine fails no assertion; the current section
-- stays one of the sections, and no section comes to have a key twice.
pub parse_line-Parsed :
    (layer : ℤ) (line : Bytes) (ctx : Context)
    → NoLead line
    → Parsed ctx
    → Holds Parsed (parse_line layer line ctx)
unfolding parse_line
parse_line-Parsed layer [] ctx n p = key_value-Parsed layer [] ctx.cursec ctx n refl p
parse_line-Parsed layer (c ∷ line) ctx n p =
    Post-if ⊥ Parsed (c == b'#') _ _ (λ _. p)
      (λ _.
        Post-if ⊥ Parsed (c == b'[') _ _ (λ _. header-Parsed (skip_ws line) ctx p)
          (λ _. key_value-Parsed layer (c ∷ line) ctx.cursec ctx n refl p))
