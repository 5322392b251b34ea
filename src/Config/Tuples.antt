-- ===== src/Config/Tuples.antt =====
-- The tuples of one section in hfpd/configfile.cpp: finding, deleting and creating them.
use nohands.Prelude.{
  is_empty, ◌≡◌, ◌≢◌, refl, ap, true, false, Option, none, some, List, [], ◌∷◌, ◌++◌, if◌then◌else◌,
  arith, All,
}
use nohands.Text.{Bytes, str_eq, str_eq→eq, str_eq_comm}
use nohands.Faults.Post.{Holds}
use nohands.Config.{Tuple, Sections, create_tuple, find_tuple, delete_tuple}

-- Each key occurs once.
abbrev pub Distinct : List Tuple → Type 0
Distinct [] = Unit
Distinct (t ∷ tups) = (find_tuple t.key tups ≡ none) × Distinct tups

abbrev pub IsTidy : Sections → Type 0
IsTidy secs = All (λ sec. Distinct sec.tuples) secs

abbrev pub tuples_of : Option (List Tuple) → List Tuple
tuples_of none = []
tuples_of (some tups) = tups

module _ (key : Bytes) where
  pub find_tuple-append :
      (tups : List Tuple) (t : Tuple)
      → find_tuple key tups ≡ none
      → find_tuple key (tups ++ t ∷ []) ≡ (if str_eq t.key key then some t else none)
  unfolding find_tuple
  find_tuple-append [] t h = refl
  find_tuple-append (u ∷ tups) t h = ground (arith, find_tuple-append tups t)

  pub find_tuple-append_other :
      (tups : List Tuple) (t : Tuple)
      → str_eq t.key key ≡ false
      → find_tuple key (tups ++ t ∷ []) ≡ find_tuple key tups
  unfolding find_tuple
  find_tuple-append_other [] t h = rw h refl
  find_tuple-append_other (u ∷ tups) t h = ground (arith, find_tuple-append_other tups t h)

  find_at_eq :
      (k : Bytes) (tups : List Tuple)
      → str_eq k key ≡ true
      → find_tuple k tups ≡ find_tuple key tups
  find_at_eq k tups h = ap (λ x. find_tuple x tups) (str_eq→eq k key h)

  pub find_tuple-delete :
      (tups : List Tuple) → Distinct tups → find_tuple key (delete_tuple key tups) ≡ none
  unfolding find_tuple delete_tuple
  find_tuple-delete [] d = refl
  find_tuple-delete (t ∷ tups) d =
      ground (arith, find_tuple-delete tups d.1, find_at_eq t.key tups, d.0)

  pub find_tuple-delete_other :
      (k : Bytes) (tups : List Tuple)
      → k ≢ key
      → find_tuple k (delete_tuple key tups) ≡ find_tuple k tups
  unfolding find_tuple delete_tuple
  find_tuple-delete_other k [] n = refl
  find_tuple-delete_other k (t ∷ tups) n =
      ground (arith, find_tuple-delete_other k tups n, str_eq→eq t.key key, str_eq→eq t.key k)

find_tuple-delete_none :
    (k key : Bytes) (tups : List Tuple)
    → find_tuple k tups ≡ none
    → find_tuple k (delete_tuple key tups) ≡ none
unfolding find_tuple delete_tuple
find_tuple-delete_none k key [] h = refl
find_tuple-delete_none k key (t ∷ tups) h = ground (arith, find_tuple-delete_none k key tups)

pub delete_tuple-Distinct :
    (key : Bytes) (tups : List Tuple) → Distinct tups → Distinct (delete_tuple key tups)
unfolding delete_tuple
delete_tuple-Distinct key [] d = tt
delete_tuple-Distinct key (t ∷ tups) d =
    ground (arith, delete_tuple-Distinct key tups d.1, find_tuple-delete_none t.key key tups d.0)

pub append-Distinct :
    (tups : List Tuple) (t : Tuple)
    → Distinct tups
    → find_tuple t.key tups ≡ none
    → Distinct (tups ++ t ∷ [])
unfolding find_tuple
append-Distinct [] t d h = (refl, tt)
append-Distinct (u ∷ tups) t d h =
    ground (
      arith,
      append-Distinct tups t d.1,
      find_tuple-append u.key tups t d.0,
      str_eq_comm u.key t.key,
    )

-- `CreateTuple` under a key that is free.
abbrev pub Created : Tuple → List Tuple → List Tuple → Type 0
Created t tups tups' = Distinct tups' × (tups' ≡ tups ++ t ∷ [])

pub create_tuple-Created :
    (t : Tuple) (tups : List Tuple)
    → is_empty t.key ≡ false
    → Distinct tups
    → find_tuple t.key tups ≡ none
    → Holds (Created t tups) (create_tuple t tups)
unfolding create_tuple
create_tuple-Created t tups h d f = ground (arith, append-Distinct tups t d f)
