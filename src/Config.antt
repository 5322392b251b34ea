-- ===== src/Config.antt =====
-- The settings of the daemon, `ConfigFile` of hfpd/configfile.cpp: sections of tuples, with the layer
-- that each tuple comes from. Allocation is taken to succeed. The sections and the tuples of a section
-- are lists in the order of `m_sections` and `m_tuples`.
pub mod Parse
pub mod Read
pub mod Scan
pub mod Extract
pub mod Chunks
pub mod Loaded
pub mod Lines
pub mod Reloaded
pub mod Save
pub mod Iterate
pub mod Tuples
pub mod Lookup
pub mod Stored
pub mod Numbers
pub mod Layers
pub mod Parsed
pub mod Reopened
pub mod First
pub mod InSection
use nohands.Text.Decimal.{show_int}
use nohands.Prelude.{
  is_empty, ℕ, zero, suc, ◌-◌, ◌^◌, Bool, true, false, not, ◌&&◌, ◌||◌, Option, none, some, List,
  [], ◌∷◌, ◌++◌, ◌==◌, if◌then◌else◌, ℤ, pos, ◌==ℤ◌,
}
use nohands.Text.{Bytes, codes, str_eq, str_case_eq}
use nohands.Text.Strtol.{strtol?, to_int}
use nohands.Faults.{assertion, Result, ok, fault, ◌>>=◌, ◌>>◌, assert}

pub record Tuple : Type 0 where
  pub key : Bytes
  pub value : Bytes
  pub layer : ℤ
  pub lowest_layer : ℤ

pub record Section : Type 0 where
  pub name : Bytes
  pub tuples : List Tuple

-- `m_sections`
abbrev pub Sections : Type 0
Sections = List Section

abbrev pub int_max : ℤ
int_max = pos (2 ^ 31 - 1)

unfoldable pub create_section : Bytes → Sections → Result Sections
create_section name secs = do
  assert (not (is_empty name))
  ok (secs ++ record { name = name; tuples = [] } ∷ [])

-- `CreateTuple`, with the layers that its callers set.
unfoldable pub create_tuple : Tuple → List Tuple → Result (List Tuple)
create_tuple t tups = do assert (not (is_empty t.key)); ok (tups ++ t ∷ [])

-- The first section of the name, by its tuples.
unfoldable pub find_section : Bytes → Sections → Option (List Tuple)
find_section name [] = none
find_section name (sec ∷ secs) =
    let later = find_section name secs in if str_eq sec.name name then some sec.tuples else later

unfoldable pub find_tuple : Bytes → List Tuple → Option Tuple
find_tuple key [] = none
find_tuple key (t ∷ tups) =
    let later = find_tuple key tups in if str_eq t.key key then some t else later

-- `DeleteTuple` of the tuple that `FindTuple` has found.
unfoldable pub delete_tuple : Bytes → List Tuple → List Tuple
delete_tuple key [] = []
delete_tuple key (t ∷ tups) =
    let later = delete_tuple key tups in if str_eq t.key key then tups else t ∷ later

-- New tuples for the first section of the name.
unfoldable pub put_section : Bytes → List Tuple → Sections → Sections
put_section name tups [] = []
put_section name tups (sec ∷ secs) =
    let later = put_section name tups secs in
    if str_eq sec.name name then record sec { tuples = tups } ∷ secs else sec ∷ later

-- `FindSection`, and `CreateSection` where that finds none.
abbrev pub section_or_new : Option (List Tuple) → Bytes → Sections → Result (Sections × List Tuple)
section_or_new none name secs = create_section name secs >>= λ secs'. ok (secs', [])
section_or_new (some tups) name secs = ok (secs, tups)

unfoldable pub open_section : Bytes → Sections → Result (Sections × List Tuple)
unfolding create_section find_section
open_section name secs = section_or_new (find_section name secs) name secs

-- A value that is empty counts as none.
abbrev pub value_of : Option Tuple → Option Bytes
value_of none = none
value_of (some t) = if is_empty t.value then none else some t.value

-- `Get`: the value, or none where the caller gets its default and false. The section is created.
unfoldable pub get : Bytes → Bytes → Sections → Result (Sections × Option Bytes)
unfolding open_section find_tuple
get section key secs = do r ← open_section section secs; ok (r.0, value_of (find_tuple key r.1))

abbrev pub as_int : Option (ℤ × Bytes) → Option ℤ
as_int none = none
as_int (some (n, end)) = some (to_int n)

abbrev pub int_of : Option Bytes → Option ℤ
int_of none = none
int_of (some v) = as_int (strtol? 0 v)

-- `Get` of an `int`
unfoldable pub get_int : Bytes → Bytes → Sections → Result (Sections × Option ℤ)
unfolding get
get_int section key secs = get section key secs >>= λ r. ok (r.0, int_of r.1)

abbrev zero_or_one : Option ℤ → Option Bool
zero_or_one none = none
zero_or_one (some n) = if n ==ℤ pos 1 then some true else if n ==ℤ pos 0 then some false else none

abbrev bool_of : Option Bytes → Option Bool
bool_of none = none
bool_of (some v) =
    if str_case_eq v (codes "true") || str_case_eq v (codes "yes")
    then some true
    else if str_case_eq v (codes "false") || str_case_eq v (codes "no")
    then some false
    else zero_or_one (int_of (some v))

-- `Get` of a `bool`
unfoldable pub get_bool : Bytes → Bytes → Sections → Result (Sections × Option Bool)
unfolding get
get_bool section key secs = get section key secs >>= λ r. ok (r.0, bool_of r.1)

abbrev pub lowest_of : Option Tuple → ℤ
lowest_of none = int_max
lowest_of (some t) = t.lowest_layer

abbrev or_empty : Option Bytes → Bytes
or_empty none = []
or_empty (some v) = v

abbrev is_null : Option Bytes → Bool
is_null none = true
is_null (some v) = false

-- The tuples of the section behind `Set`, with the old tuple deleted.
unfoldable pub set_tuple : Bytes → Option Bytes → List Tuple → Result (List Tuple)
unfolding create_tuple find_tuple delete_tuple
set_tuple key value tups =
    let lowest = lowest_of (find_tuple key tups) in
    if is_null value && lowest ==ℤ int_max
    then ok (delete_tuple key tups)
    else create_tuple
        (record { key = key; value = or_empty value; layer = int_max; lowest_layer = lowest })
        (delete_tuple key tups)

-- `Set`, and `Delete` where the value is null.
unfoldable pub set_value : Bytes → Bytes → Option Bytes → Sections → Result Sections
unfolding open_section set_tuple put_section
set_value section key value secs = do
  r ← open_section section secs
  tups ← set_tuple key value r.1
  ok (put_section section tups r.0)

-- `Set` of an `int` and of a `bool`
unfoldable pub set_int : Bytes → Bytes → ℤ → Sections → Result Sections
unfolding set_value
set_int section key value secs = set_value section key (some (show_int value)) secs

unfoldable pub set_bool : Bytes → Bytes → Bool → Sections → Result Sections
unfolding set_value
set_bool section key value secs =
    set_value section key (some (if value then codes "true" else codes "false")) secs
