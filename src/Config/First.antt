-- ===== src/Config/First.antt =====
-- `First` of hfpd/configfile.cpp does not come to an end where the first tuple has been deleted.
use nohands.Prelude.{
  is_empty, ℕ, zero, suc, ◌≤◌, ap, ◌++◌, length, ◌≡◌, refl, Bool, true, false, Option, none, some,
  List, [], ◌∷◌, if◌then◌else◌, arith,
}
use nohands.Text.{Bytes}
use nohands.Config.{Tuple, Sections}
use nohands.Config.Iterate.{
  Iterator, keep_or, first_of, first_tuple, has_value, first, skip_tuples, skip_sections, next,
  all_from,
}

-- Where the first tuple of the settings has the empty value, as Delete leaves it in a tuple that
-- hides one of a lower layer, the loop of First begins anew for ever: no number of rounds is
-- enough.
pub first-hangs :
    (fuel : ℕ) (secs : Sections) (it : Iterator)
    → first_tuple secs ≡ some it
    → is_empty it.tup.value ≡ true
    → first fuel secs ≡ none
unfolding first
first-hangs zero secs it e h = refl
first-hangs (suc fuel) secs it e h = rw e (rw h (first-hangs fuel secs it e h))

-- The tuples that have a value, in the order of the settings.
abbrev pub with_value : Bytes → List Tuple → List (Bytes × Tuple)
with_value sec [] = []
with_value sec (t ∷ tups) =
    if has_value t then (sec, t) ∷ with_value sec tups else with_value sec tups

abbrev pub listing : Sections → List (Bytes × Tuple)
listing [] = []
listing (s ∷ secs) = with_value s.name s.tuples ++ listing secs

-- Enough steps from an iterator yield the list.
abbrev Yields : Option Iterator → List (Bytes × Tuple) → Type 0
Yields o l = (n : ℕ) → length l ≤ n → all_from n o ≡ l

none-Yields : Yields none []
unfolding all_from
none-Yields zero h = refl
none-Yields (suc n) h = refl

cons-Yields :
    (it : Iterator) (l : List (Bytes × Tuple))
    → Yields (next it) l
    → Yields (some it) ((it.sec, it.tup) ∷ l)
unfolding all_from
cons-Yields it l y zero h = absurd (omega arith)
cons-Yields it l y (suc n) h = ap (λ m. (it.sec, it.tup) ∷ m) (y n (omega arith))

if-Yields :
    (b : Bool) (o o' : Option Iterator) (v w l : List (Bytes × Tuple))
    → Yields o (v ++ l)
    → Yields o' (w ++ l)
    → Yields (if b then o else o') ((if b then v else w) ++ l)
if-Yields true o o' v w l y z = y
if-Yields false o o' v w l y z = z

skip_tuples-Yields :
    (sec : Bytes) (tups : List Tuple) (secs : Sections) (l : List (Bytes × Tuple))
    → Yields (skip_sections secs) l
    → Yields (skip_tuples sec tups secs (skip_sections secs)) (with_value sec tups ++ l)
unfolding skip_tuples next
skip_tuples-Yields sec [] secs l y = y
skip_tuples-Yields sec (t ∷ tups) secs l y =
    let z = skip_tuples-Yields sec tups secs l y in
    if-Yields (has_value t) _ _ _ _ l
      (cons-Yields (record { sec = sec; tup = t; tups = tups; secs = secs })
        (with_value sec tups ++ l) z)
      z

skip_sections-Yields : (secs : Sections) → Yields (skip_sections secs) (listing secs)
unfolding skip_sections
skip_sections-Yields [] = none-Yields
skip_sections-Yields (s ∷ secs) =
    skip_tuples-Yields s.name s.tuples secs (listing secs) (skip_sections-Yields secs)

-- Where the first tuple has a value, or there is none.
abbrev IsGood : Option Iterator → Type 0
IsGood none = Unit
IsGood (some it) = has_value it.tup ≡ true

first_of-skips :
    (sec : Bytes) (tups : List Tuple) (secs : Sections) (a b : Option Iterator)
    → (IsGood a → b ≡ a)
    → IsGood (first_of sec tups secs a)
    → skip_tuples sec tups secs b ≡ first_of sec tups secs a
unfolding skip_tuples
first_of-skips sec [] secs a b h g = h g
first_of-skips sec (t ∷ tups) secs a b h g = rw g refl

first_tuple-skips :
    (secs : Sections) → IsGood (first_tuple secs) → skip_sections secs ≡ first_tuple secs
unfolding first_tuple skip_sections
first_tuple-skips [] g = refl
first_tuple-skips (s ∷ secs) g =
    first_of-skips s.name s.tuples secs (first_tuple secs) (skip_sections secs)
      (first_tuple-skips secs) g

kept :
    (a o skipped : Option Iterator) (again : Option (Option Iterator))
    → keep_or a again ≡ some o
    → (again ≡ some o → skipped ≡ o)
    → (IsGood a → skipped ≡ a)
    → skipped ≡ o
kept none o skipped again e h g = ground (arith, g tt)
kept (some it) o skipped again e h g = ground (arith, h, g)

first_ends :
    (fuel : ℕ) (secs : Sections) (o : Option Iterator)
    → first fuel secs ≡ some o
    → skip_sections secs ≡ o
unfolding first
first_ends zero secs o e = cc
first_ends (suc fuel) secs o e =
    kept (first_tuple secs) o (skip_sections secs) (first fuel secs) e (first_ends fuel secs o)
      (first_tuple-skips secs)

-- If First comes to an end, it and as many calls of Next as there are tuples with a value yield
-- exactly these, each once and in the order of the settings.
pub first-lists :
    (fuel n : ℕ) (secs : Sections) (o : Option Iterator)
    → first fuel secs ≡ some o
    → length (listing secs) ≤ n
    → all_from n o ≡ listing secs
first-lists fuel n secs o e h = rw (← first_ends fuel secs o e) (skip_sections-Yields secs n h)
