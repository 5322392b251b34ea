-- ===== src/Config/Layers.antt =====
-- The layers of settings in `ParseLine` of hfpd/configfile.cpp: a key of a higher layer hides that of
-- a lower one, whichever is read first.
use nohands.Prelude.{
  is_empty, ◌≡◌, ◌∙◌, refl, ap, true, false, Option, none, some, List, if◌then◌else◌, ℤ, ltb_ℤ,
  arith,
}
use nohands.Text.{Bytes, str_eq→eq, str_eq_refl}
use nohands.Faults.{◌>>=◌}
use nohands.Faults.Post.{Holds, Post-bind, Post-weaken, Post-if}
use nohands.Config.{Tuple, create_tuple, find_tuple, delete_tuple}
use nohands.Config.Parse.{stays, lowest_or, merge_tuple}
use nohands.Config.Tuples.{
  Distinct, find_tuple-append, find_tuple-delete, delete_tuple-Distinct, Created,
  create_tuple-Created,
}

-- The tuple that a line leaves under its key: the old one, or that of the line.
abbrev pub merged : ℤ → Bytes → Bytes → Option Tuple → Option Tuple
merged layer key value found =
    if stays layer value found
    then found
    else some
        (record { key = key; value = value; layer = layer; lowest_layer = lowest_or layer found })

pub record Merged (layer : ℤ) (key value : Bytes) (tups tups' : List Tuple) : Type 0 where
  pub distinct : Distinct tups'
  pub found : find_tuple key tups' ≡ merged layer key value (find_tuple key tups)

pub merge_tuple-Merged :
    (layer : ℤ) (key value : Bytes) (tups : List Tuple)
    → is_empty key ≡ false
    → Distinct tups
    → Holds (Merged layer key value tups) (merge_tuple layer key value tups)
unfolding merge_tuple
merge_tuple-Merged layer key value tups h d =
    let old = find_tuple key tups in
    let t : Tuple = record {
      key = key;
      value = value;
      layer = layer;
      lowest_layer = lowest_or layer old;
    } in
    let rest = delete_tuple key tups in
    let free = find_tuple-delete key tups d in
    Post-if ⊥ (Merged layer key value tups) (stays layer value old) _ _
      (λ q. record { distinct = d; found = rw q refl })
      (λ q.
        Post-weaken ⊥ (Created t rest) (Merged layer key value tups) (create_tuple t rest)
          (λ tups' c. record {
            distinct = c.0;
            found =
                rw (c.1)
                  (rw (find_tuple-append key rest t free) (rw (str_eq_refl key) (rw q refl)));
          })
          (create_tuple-Created t rest h (delete_tuple-Distinct key tups d) free))

abbrev pub text_of : Option Tuple → Option Bytes
text_of none = none
text_of (some t) = some t.value

-- Two lines after each other, where the key was not set.
two_lines :
    (l m : ℤ) (key v w x : Bytes) (tups : List Tuple)
    → is_empty key ≡ false
    → Distinct tups
    → find_tuple key tups ≡ none
    → text_of (merged m key w (merged l key v none)) ≡ some x
    → Holds
        (λ r. text_of (find_tuple key r) ≡ some x)
        (merge_tuple l key v tups >>= merge_tuple m key w)
two_lines l m key v w x tups h d f e =
    Post-bind ⊥ (Merged l key v tups) (λ r. text_of (find_tuple key r) ≡ some x)
      (merge_tuple l key v tups) (merge_tuple m key w) (merge_tuple-Merged l key v tups h d)
      (λ r p.
        Post-weaken ⊥ (Merged m key w r) (λ q. text_of (find_tuple key q) ≡ some x)
          (merge_tuple m key w r)
          (λ q n. ap text_of (n.found ∙ ap (merged m key w) (p.found ∙ ap (merged l key v) f)) ∙ e)
          (merge_tuple-Merged m key w r h p.distinct))

-- Two lines with one key, of different layers, in a section that has no key twice and not that
-- one: whichever is read first, the key has the value of the higher layer.
pub merge_layers :
    (low high : ℤ) (key v w : Bytes) (tups : List Tuple)
    → ltb_ℤ low high ≡ true
    → is_empty key ≡ false
    → Distinct tups
    → find_tuple key tups ≡ none
    → Holds
        (λ r. text_of (find_tuple key r) ≡ some w)
        (merge_tuple low key v tups >>= merge_tuple high key w)
      × Holds
          (λ r. text_of (find_tuple key r) ≡ some w)
          (merge_tuple high key w tups >>= merge_tuple low key v)
merge_layers low high key v w tups l h d f = (
  two_lines low high key v w w tups h d f (ground (arith, str_eq→eq v w)),
  two_lines high low key w v w tups h d f (ground arith),
)
