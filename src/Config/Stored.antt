-- ===== src/Config/Stored.antt =====
-- `Get` after `Set` and after `Delete` in hfpd/configfile.cpp.
use nohands.Prelude.{
  is_empty, ◌≡◌, ◌≢◌, ◌⊎◌, ◌∙◌, refl, ap, inl, inr, false, Bool-cases, Option, none, some, List,
}
use nohands.Text.{Bytes, str_eq, str_eq→eq, ne-str_eq}
use nohands.Faults.{ok}
use nohands.Faults.Post.{Holds, Post-bind, Post-map}
use nohands.Config.{
  Tuple, Sections, find_section, find_tuple, put_section, open_section, value_of, get, set_tuple,
  set_value,
}
use nohands.Config.Tuples.{Distinct, IsTidy, tuples_of}
use nohands.Config.Lookup.{
  TupleSet, set_tuple-TupleSet, unset_tuple-TupleSet, Opened, open_section-Opened, find_section-put,
  find_section-put_other, put_section-IsTidy,
}

-- What is found under a key.
abbrev pub lookup : Bytes → Bytes → Sections → Option Bytes
lookup section key secs = value_of (find_tuple key (tuples_of (find_section section secs)))

-- The settings behind `Set`: `Get` of the key has `value`, or takes its default, and what is found
-- under any other key of any section is what was found before.
pub record Stored (section key : Bytes) (value : Option Bytes) (secs secs' : Sections)
    : Type 0 where
  pub tidy : IsTidy secs'
  pub get_eq : get section key secs' ≡ ok (secs', value)
  pub others : (s k : Bytes) → s ≢ section ⊎ k ≢ key → lookup s k secs' ≡ lookup s k secs

get_there :
    (section key : Bytes) (secs : Sections) (tups : List Tuple)
    → find_section section secs ≡ some tups
    → get section key secs ≡ ok (secs, value_of (find_tuple key tups))
unfolding get open_section
get_there section key secs tups e = rw e refl

others_stored :
    (section key : Bytes) (value : Option Bytes) (secs : Sections) (r : Sections × List Tuple)
    (tups : List Tuple)
    → Opened section secs r
    → TupleSet key value r.1 tups
    → (s k : Bytes) → s ≢ section ⊎ k ≢ key
    → lookup s k (put_section section tups r.0) ≡ lookup s k secs
others_stored section key value secs r tups o t s k n =
    let read : Option (List Tuple) → Option Bytes = λ x. value_of (find_tuple k (tuples_of x)) in
    elim (Bool-cases (str_eq s section)) [
      | inl q ↦ elim n [
        | inl m ↦ absurd (m (str_eq→eq s section q))
        | inr m ↦ rw (str_eq→eq s section q) (
            ap read (find_section-put section tups r.1 r.0 o.is_there)
            ∙ ap value_of (t.others k m)
            ∙ ap (λ x. value_of (find_tuple k x)) o.same)
      ]
      | inr q ↦
          let m = ne-str_eq s section q in
          ap read (find_section-put_other s section tups r.0 m ∙ o.others s m)
    ]

put-Stored :
    (section key : Bytes) (value : Option Bytes) (secs : Sections) (r : Sections × List Tuple)
    (tups : List Tuple)
    → Opened section secs r
    → TupleSet key value r.1 tups
    → Stored section key value secs (put_section section tups r.0)
put-Stored section key value secs r tups o t = record {
  tidy = put_section-IsTidy section tups r.0 t.distinct o.tidy;
  get_eq =
      get_there section key _ tups (find_section-put section tups r.1 r.0 o.is_there)
      ∙ ap (λ v. ok (put_section section tups r.0, v)) t.found;
  others = others_stored section key value secs r tups o t;
}

set_with :
    (section key : Bytes) (new value : Option Bytes) (secs : Sections)
    → is_empty section ≡ false
    → IsTidy secs
    → ((tups : List Tuple)
        → Distinct tups
        → Holds (TupleSet key value tups) (set_tuple key new tups))
    → Holds (Stored section key value secs) (set_value section key new secs)
unfolding set_value
set_with section key new value secs h d f =
    Post-bind ⊥ (Opened section secs) (Stored section key value secs) (open_section section secs) _
      (open_section-Opened section secs h d)
      (λ r o.
        Post-map ⊥ (TupleSet key value r.1) (Stored section key value secs) (set_tuple key new r.1)
          (λ tups. put_section section tups r.0) (f r.1 o.distinct)
          (λ tups t. put-Stored section key value secs r tups o t))

-- On settings in which no section has a key twice, Set of a value that is not empty, with a
-- section and a key that are not empty, succeeds, Get then has that value, what is found under all
-- other keys is as it was, and no key occurs twice.
pub set_value-Stored :
    (section key value : Bytes) (secs : Sections)
    → is_empty section ≡ false
    → is_empty key ≡ false
    → is_empty value ≡ false
    → IsTidy secs
    → Holds (Stored section key (some value) secs) (set_value section key (some value) secs)
set_value-Stored section key value secs h k v d =
    set_with section key (some value) (some value) secs h d
      (λ tups e. set_tuple-TupleSet key value tups k v e)

-- Delete, with a section and a key that are not empty, on settings in which no section has a key
-- twice succeeds, Get of the key then takes its default, and what is found under all other keys is
-- as it was.
pub delete-Stored :
    (section key : Bytes) (secs : Sections)
    → is_empty section ≡ false
    → is_empty key ≡ false
    → IsTidy secs
    → Holds (Stored section key none secs) (set_value section key none secs)
delete-Stored section key secs h k d =
    set_with section key none none secs h d (λ tups e. unset_tuple-TupleSet key tups k e)
