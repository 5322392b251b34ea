-- ===== src/Config/Iterate.antt =====
-- The iterators of hfpd/configfile.cpp: `First`, `FirstInSection` and `Next`. An iterator is what is
-- ahead of it: the section, the tuple, the tuples behind that in the section, and the sections behind
-- that one. `Prev` is not modelled.
use nohands.Prelude.{
  is_empty, ℕ, zero, suc, Bool, not, Option, none, some, List, [], ◌∷◌, ◌==◌, length, if◌then◌else◌,
}
use nohands.Text.{Bytes, str_eq}
use nohands.Config.{Tuple, Section, Sections}

pub record Iterator : Type 0 where
  pub sec : Bytes
  pub tup : Tuple
  pub tups : List Tuple
  pub secs : Sections

-- The first tuple of a section, or what is found behind the section.
abbrev pub first_of : Bytes → List Tuple → Sections → Option Iterator → Option Iterator
first_of sec [] secs behind = behind
first_of sec (t ∷ tups) secs behind = some (record { sec = sec; tup = t; tups = tups; secs = secs })

-- The first tuple of the sections, its value aside.
unfoldable pub first_tuple : Sections → Option Iterator
first_tuple [] = none
first_tuple (s ∷ secs) = first_of s.name s.tuples secs (first_tuple secs)

abbrev pub has_value : Tuple → Bool
has_value t = not (is_empty t.value)

abbrev pub keep_or : Option Iterator → Option (Option Iterator) → Option (Option Iterator)
keep_or none again = some none
keep_or (some it) again = if has_value it.tup then some (some it) else again

-- `do { ... } while (!it.tup->value[0])` of `First`, which begins anew each time; `none` where the
-- fuel does not suffice, and `some none` where there is no tuple.
unfoldable pub first : ℕ → Sections → Option (Option Iterator)
unfolding first_tuple
first zero secs = none
first (suc fuel) secs = keep_or (first_tuple secs) (first fuel secs)

-- The first tuple with a value, in a list of tuples of the section or behind it.
unfoldable pub skip_tuples : Bytes → List Tuple → Sections → Option Iterator → Option Iterator
skip_tuples sec [] secs rest = rest
skip_tuples sec (t ∷ tups) secs rest =
    let later = skip_tuples sec tups secs rest in
    if has_value t then some (record { sec = sec; tup = t; tups = tups; secs = secs }) else later

unfoldable pub skip_sections : Sections → Option Iterator
unfolding skip_tuples
skip_sections [] = none
skip_sections (s ∷ secs) = skip_tuples s.name s.tuples secs (skip_sections secs)

-- `Next`
unfoldable pub next : Iterator → Option Iterator
unfolding skip_tuples skip_sections
next it = skip_tuples it.sec it.tups it.secs (skip_sections it.secs)

-- FindSection, with the sections behind the one it finds.
unfoldable pub section_at : Bytes → Sections → Option (Section × Sections)
section_at name [] = none
section_at name (s ∷ secs) =
    let later = section_at name secs in if str_eq s.name name then some (s, secs) else later

-- `it.sec != secp`: as many sections are behind the iterator as behind the section.
abbrev pub in_section : Sections → Option Iterator → Option Iterator
in_section secs none = none
in_section secs (some it) = if length it.secs == length secs then some it else none

abbrev pub first_within : Bytes → List Tuple → Sections → Option Iterator
first_within sec [] secs = none
first_within sec (t ∷ tups) secs =
    let it : Iterator = record { sec = sec; tup = t; tups = tups; secs = secs } in
    if has_value t then some it else in_section secs (next it)

-- `FirstInSection`
unfoldable pub first_in_section : Bytes → Sections → Option Iterator
unfolding section_at next
first_in_section name secs = elim (section_at name secs) [
  | none ↦ none
  | some (s, behind) ↦ first_within s.name s.tuples behind
]

-- All that `Next` reaches; with fuel for as many steps.
unfoldable pub all_from : ℕ → Option Iterator → List (Bytes × Tuple)
unfolding next
all_from zero o = []
all_from (suc fuel) none = []
all_from (suc fuel) (some it) = (it.sec, it.tup) ∷ all_from fuel (next it)
