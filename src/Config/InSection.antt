-- ===== src/Config/InSection.antt =====
-- `FirstInSection` of hfpd/configfile.cpp, which goes on with `Next` and looks where that has led.
use nohands.Prelude.{
  ℕ, ◌<◌, ◌≡◌, refl, ap, inl, inr, true, Bool-cases, Option, none, some, List, [], ◌∷◌, ◌==◌,
  length, if◌then◌else◌, arith,
}
use nohands.Text.{Bytes}
use nohands.Config.{Tuple, Section, Sections}
use nohands.Config.Iterate.{
  Iterator, has_value, skip_tuples, skip_sections, next, section_at, in_section, first_within,
  first_in_section,
}

-- What is found lies behind a section that has `n` sections behind it.
abbrev IsBehind : ℕ → Option Iterator → Type 0
IsBehind n none = Unit
IsBehind n (some it) = length it.secs < n

skip_tuples-IsBehind :
    (n : ℕ) (sec : Bytes) (tups : List Tuple) (secs : Sections) (rest : Option Iterator)
    → length secs < n
    → IsBehind n rest
    → IsBehind n (skip_tuples sec tups secs rest)
unfolding skip_tuples
skip_tuples-IsBehind n sec [] secs rest l b = b
skip_tuples-IsBehind n sec (t ∷ tups) secs rest l b = elim (Bool-cases (has_value t)) [
  | inl e ↦ rw e l
  | inr e ↦ rw e (skip_tuples-IsBehind n sec tups secs rest l b)
]

weaken-IsBehind : (n m : ℕ) (o : Option Iterator) → n < m → IsBehind n o → IsBehind m o
weaken-IsBehind n m none l b = tt
weaken-IsBehind n m (some it) l b = omega arith

skip_sections-IsBehind : (secs : Sections) → IsBehind (length secs) (skip_sections secs)
unfolding skip_sections
skip_sections-IsBehind [] = tt
skip_sections-IsBehind (s ∷ secs) =
    skip_tuples-IsBehind (length (s ∷ secs)) s.name s.tuples secs (skip_sections secs) (omega arith)
      (weaken-IsBehind (length secs) (length (s ∷ secs)) (skip_sections secs) (omega arith)
        (skip_sections-IsBehind secs))

not_behind :
    (secs : Sections) (o : Option Iterator) → IsBehind (length secs) o → in_section secs o ≡ none
not_behind secs none b = refl
not_behind secs (some it) b = ground arith

in_section-skip :
    (sec : Bytes) (tups : List Tuple) (secs : Sections)
    → in_section secs (skip_tuples sec tups secs (skip_sections secs))
      ≡ skip_tuples sec tups secs none
unfolding skip_tuples
in_section-skip sec [] secs = not_behind secs (skip_sections secs) (skip_sections-IsBehind secs)
in_section-skip sec (t ∷ tups) secs = elim (Bool-cases (has_value t)) [
  | inl e ↦ let same : (length secs == length secs) ≡ true = ground arith in rw (e, same) refl
  | inr e ↦ rw e (in_section-skip sec tups secs)
]

within_lem :
    (sec : Bytes) (tups : List Tuple) (secs : Sections)
    → first_within sec tups secs ≡ skip_tuples sec tups secs none
unfolding next skip_tuples
within_lem sec [] secs = refl
within_lem sec (t ∷ tups) secs =
    ap
      (λ o.
        if has_value t then some (record { sec = sec; tup = t; tups = tups; secs = secs }) else o)
      (in_section-skip sec tups secs)

-- In a section that is there, FirstInSection finds the first tuple of that section that has a value,
-- and none if no tuple of it has one, whatever the sections behind it hold.
first_in_section_lem :
    (name : Bytes) (secs behind : Sections) (s : Section)
    → section_at name secs ≡ some (s, behind)
    → first_in_section name secs ≡ skip_tuples s.name s.tuples behind none
unfolding first_in_section
first_in_section_lem name secs behind s h =
    rw (h, first_in_section) (within_lem s.name s.tuples behind)
