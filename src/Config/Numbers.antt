-- ===== src/Config/Numbers.antt =====
-- `Get` of an `int` after `Set` of an `int` in hfpd/configfile.cpp.
use nohands.Prelude.{is_empty, ℕ, ◌<◌, ◌^◌, ◌≡◌, ◌∙◌, refl, ap, false, some, pos, arith}
use nohands.Text.{Bytes}
use nohands.Text.Decimal.{show, show-Starts, strtol-show_base0, to_int-pos}
use nohands.Faults.{ok}
use nohands.Faults.Post.{Holds, Post-weaken}
use nohands.Config.{Sections, get_int, as_int, int_of, set_int, set_value}
use nohands.Config.Tuples.{IsTidy}
use nohands.Config.Stored.{Stored, set_value-Stored}

show_there : (n : ℕ) → is_empty (show n) ≡ false
show_there n = rw (show-Starts n).is_cons refl

int_of-show : (n : ℕ) → n < 2 ^ 31 → int_of (some (show n)) ≡ some (pos n)
int_of-show n h = ap as_int (strtol-show_base0 n (omega arith)) ∙ ap some (to_int-pos n h)

-- A number of an int that is no negative one is read back by Get as Set has stored it, with a
-- section and a key that are not empty, on settings in which no section has a key twice.
pub get_int-set_int :
    (section key : Bytes) (n : ℕ) (secs : Sections)
    → is_empty section ≡ false
    → is_empty key ≡ false
    → n < 2 ^ 31
    → IsTidy secs
    → Holds
        (λ secs'. get_int section key secs' ≡ ok (secs', some (pos n)))
        (set_int section key (pos n) secs)
unfolding get_int set_int
get_int-set_int section key n secs h k b d =
    Post-weaken ⊥ (Stored section key (some (show n)) secs)
      (λ secs'. get_int section key secs' ≡ ok (secs', some (pos n)))
      (set_value section key (some (show n)) secs)
      (λ secs' s. rw (s.get_eq) (rw (int_of-show n b) refl))
      (set_value-Stored section key (show n) secs h k (show_there n) d)
