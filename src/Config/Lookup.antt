-- ===== src/Config/Lookup.antt =====
-- What `Set` of hfpd/configfile.cpp makes of the tuples of its section, and the sections it finds.
use nohands.Prelude.{
  is_empty, ◌≡◌, ◌≢◌, ◌∙◌, refl, sym, ap, true, false, ◌&&◌, Option, none, some, List, [], ◌∷◌,
  ◌++◌, if◌then◌else◌, ◌==ℤ◌, arith,
}
use nohands.Text.{Bytes, str_eq, str_eq→eq, str_eq_refl, str_eq_ne}
use nohands.Faults.Post.{Holds, Post-weaken, Post-if}
use nohands.Config.{
  Tuple, Section, Sections, int_max, create_section, create_tuple, find_section, find_tuple,
  delete_tuple, put_section, section_or_new, open_section, value_of, set_tuple, lowest_of,
}
use nohands.Config.Tuples.{
  Distinct, IsTidy, tuples_of, find_tuple-append, find_tuple-append_other, find_tuple-delete,
  find_tuple-delete_other, delete_tuple-Distinct, Created, create_tuple-Created,
}

-- The key has the value that `Get` reads, or none, and the others are as they were.
pub record TupleSet (key : Bytes) (value : Option Bytes) (tups tups' : List Tuple) : Type 0 where
  pub distinct : Distinct tups'
  pub found : value_of (find_tuple key tups') ≡ value
  pub others : (k : Bytes) → k ≢ key → find_tuple k tups' ≡ find_tuple k tups

pub set_tuple-TupleSet :
    (key value : Bytes) (tups : List Tuple)
    → is_empty key ≡ false
    → is_empty value ≡ false
    → Distinct tups
    → Holds (TupleSet key (some value) tups) (set_tuple key (some value) tups)
unfolding set_tuple
set_tuple-TupleSet key value tups h w d =
    let t : Tuple = record {
      key = key;
      value = value;
      layer = int_max;
      lowest_layer = lowest_of (find_tuple key tups);
    } in
    let rest = delete_tuple key tups in
    let free = find_tuple-delete key tups d in
    Post-weaken ⊥ (Created t rest) (TupleSet key (some value) tups) (create_tuple t rest)
      (λ tups' c. record {
        distinct = c.0;
        found =
            rw (c.1) (rw (find_tuple-append key rest t free) (rw (str_eq_refl key) (rw w refl)));
        others = λ k n. rw (c.1) (
            find_tuple-append_other k rest t (str_eq_ne key k (λ q. n (sym q)))
            ∙ find_tuple-delete_other key k tups n);
      })
      (create_tuple-Created t rest h (delete_tuple-Distinct key tups d) free)

-- A tuple that `Set` deletes is deleted, or kept with an empty value if it hides one below.
pub unset_tuple-TupleSet :
    (key : Bytes) (tups : List Tuple)
    → is_empty key ≡ false
    → Distinct tups
    → Holds (TupleSet key none tups) (set_tuple key none tups)
unfolding set_tuple
unset_tuple-TupleSet key tups h d =
    let t : Tuple = record {
      key = key;
      value = [];
      layer = int_max;
      lowest_layer = lowest_of (find_tuple key tups);
    } in
    let rest = delete_tuple key tups in
    let free = find_tuple-delete key tups d in
    Post-if ⊥ (TupleSet key none tups) (true && lowest_of (find_tuple key tups) ==ℤ int_max) _ _
      (λ q. record {
        distinct = delete_tuple-Distinct key tups d;
        found = ap value_of free;
        others = λ k n. find_tuple-delete_other key k tups n;
      })
      (λ q.
        Post-weaken ⊥ (Created t rest) (TupleSet key none tups) (create_tuple t rest)
          (λ tups' c. record {
            distinct = c.0;
            found = rw (c.1) (rw (find_tuple-append key rest t free) (rw (str_eq_refl key) refl));
            others = λ k n. rw (c.1) (
                find_tuple-append_other k rest t (str_eq_ne key k (λ q. n (sym q)))
                ∙ find_tuple-delete_other key k tups n);
          })
          (create_tuple-Created t rest h (delete_tuple-Distinct key tups d) free))

-- The section that `Get` and `Set` work on.
pub record Opened (section : Bytes) (secs : Sections) (r : Sections × List Tuple) : Type 0 where
  pub is_there : find_section section r.0 ≡ some r.1
  pub same : r.1 ≡ tuples_of (find_section section secs)
  pub others : (s : Bytes) → s ≢ section → find_section s r.0 ≡ find_section s secs
  pub tidy : IsTidy r.0
  pub distinct : Distinct r.1

find_section-append :
    (s : Bytes) (secs : Sections) (sec : Section)
    → find_section s secs ≡ none
    → find_section s (secs ++ sec ∷ []) ≡ (if str_eq sec.name s then some sec.tuples else none)
unfolding find_section
find_section-append s [] sec h = refl
find_section-append s (u ∷ secs) sec h = ground (arith, find_section-append s secs sec)

pub find_section-append_other :
    (s : Bytes) (secs : Sections) (sec : Section)
    → str_eq sec.name s ≡ false
    → find_section s (secs ++ sec ∷ []) ≡ find_section s secs
unfolding find_section
find_section-append_other s [] sec h = rw h refl
find_section-append_other s (u ∷ secs) sec h =
    ground (arith, find_section-append_other s secs sec h)

pub append-IsTidy :
    (secs : Sections) (sec : Section)
    → Distinct sec.tuples
    → IsTidy secs
    → IsTidy (secs ++ sec ∷ [])
append-IsTidy [] sec d h = (d, tt)
append-IsTidy (u ∷ secs) sec d h = (h.0, append-IsTidy secs sec d h.1)

find_section-Distinct :
    (s : Bytes) (secs : Sections) → IsTidy secs → Distinct (tuples_of (find_section s secs))
unfolding find_section
find_section-Distinct s [] h = tt
find_section-Distinct s (u ∷ secs) h = ground (arith, find_section-Distinct s secs h.1, h.0)

found-Opened :
    (section : Bytes) (secs : Sections) (o : Option (List Tuple))
    → is_empty section ≡ false
    → IsTidy secs
    → find_section section secs ≡ o
    → Holds (Opened section secs) (section_or_new o section secs)
unfolding create_section
found-Opened section secs (some tups) h d e = record {
  is_there = e;
  same = rw e refl;
  others = λ s n. refl;
  tidy = d;
  distinct = rw (ap tuples_of e) at (find_section-Distinct section secs d);
}
found-Opened section secs none h d e = rw h (record {
  is_there =
      find_section-append section secs (record { name = section; tuples = [] }) e
      ∙ rw (str_eq_refl section) refl;
  same = rw e refl;
  others = λ s n.
      find_section-append_other s secs (record { name = section; tuples = [] })
        (str_eq_ne section s (λ q. n (sym q)));
  tidy = append-IsTidy secs (record { name = section; tuples = [] }) tt d;
  distinct = tt;
})

pub open_section-Opened :
    (section : Bytes) (secs : Sections)
    → is_empty section ≡ false
    → IsTidy secs
    → Holds (Opened section secs) (open_section section secs)
unfolding open_section
open_section-Opened section secs h d =
    found-Opened section secs (find_section section secs) h d refl

pub find_section-put :
    (section : Bytes) (tups old : List Tuple) (secs : Sections)
    → find_section section secs ≡ some old
    → find_section section (put_section section tups secs) ≡ some tups
unfolding find_section put_section
find_section-put section tups old [] h = cc
find_section-put section tups old (u ∷ secs) h =
    ground (arith, find_section-put section tups old secs)

pub find_section-put_other :
    (s section : Bytes) (tups : List Tuple) (secs : Sections)
    → s ≢ section
    → find_section s (put_section section tups secs) ≡ find_section s secs
unfolding find_section put_section
find_section-put_other s section tups [] n = refl
find_section-put_other s section tups (u ∷ secs) n = ground (
  arith,
  find_section-put_other s section tups secs n,
  str_eq→eq u.name section,
  str_eq→eq u.name s,
)

pub put_section-IsTidy :
    (section : Bytes) (tups : List Tuple) (secs : Sections)
    → Distinct tups
    → IsTidy secs
    → IsTidy (put_section section tups secs)
unfolding put_section
put_section-IsTidy section tups [] d h = tt
put_section-IsTidy section tups (u ∷ secs) d h =
    ground (arith, put_section-IsTidy section tups secs d h.1)
