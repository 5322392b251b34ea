-- ===== src/Tests/Files.antt =====
-- Examples for the reader of hfpd/configfile.cpp.
use nohands.Prelude.{ℕ, ◌≡◌, true, none, some, [], ◌∷◌, pos, arith, All, refl}
use nohands.Text.{Bytes, codes, str_eq}
use nohands.Faults.{ok}
use nohands.Faults.Post.{Holds}
use nohands.Config.{Sections, find_tuple}
use nohands.Config.Tuples.{IsTidy}
use nohands.Config.Parse.{Context}
use nohands.Config.Read.{read_file, load}
use nohands.Config.Scan.{scan_file}
use nohands.Config.Save.{save}
use nohands.Config.Chunks.{read_file-scan}
use nohands.Config.Loaded.{load-IsTidy}
use nohands.Config.Reloaded.{IsReadable, load-save}

-- Two sections; the last line has no end.
abbrev file : Bytes
file = codes "[a]\n  x = 1\n\n[b]\ny=2"

abbrev empty : Context
empty = record { secs = []; cursec = none }

-- Two bytes at a time.
abbrev few : ℕ → ℕ
few n = 1

read_file-scan_example :
    read_file (pos 1) (codes "") (λ n. some (few n)) file empty
    ≡ scan_file (pos 1) (codes "") file empty
read_file-scan_example = read_file-scan (pos 1) (codes "") few file empty

load-IsTidy_example :
    Holds (λ r. IsTidy r.0) (load (pos 1) true (codes "") (λ n. some (few n)) file none [])
load-IsTidy_example = load-IsTidy (pos 1) true (codes "") few file [] (ground arith) tt

abbrev sound : Sections
sound =
    record {
      name = codes "audio";
      tuples =
          record {
            key = codes "rate";
            value = codes "8000 Hz";
            layer = pos 5;
            lowest_layer = pos 1;
          }
          ∷ record { key = codes "old"; value = codes "1"; layer = pos 1; lowest_layer = pos 1 }
          ∷ record { key = codes "off"; value = []; layer = pos 5; lowest_layer = pos 1 }
          ∷ [];
    }
    ∷ record {
      name = codes "quiet";
      tuples = record { key = codes "x"; value = []; layer = pos 5; lowest_layer = pos 5 } ∷ [];
    }
    ∷ []

sound-IsReadable : All IsReadable sound
unfolding find_tuple str_eq
sound-IsReadable = (
  (
    record {
      some_name = refl;
      name_start = refl;
      name_plain = ground arith;
      name_lacks = ground arith;
      name_fits = omega arith;
    },
    (refl, (refl, (refl, tt))),
    (
      record {
        key_start = (refl, refl, refl, refl);
        key_plain = ground arith;
        key_lacks = ground arith;
        key_end = refl;
        value_plain = ground arith;
        value_start = refl;
        value_end = refl;
        fits = omega arith;
      },
      (
        record {
          key_start = (refl, refl, refl, refl);
          key_plain = ground arith;
          key_lacks = ground arith;
          key_end = refl;
          value_plain = ground arith;
          value_start = refl;
          value_end = refl;
          fits = omega arith;
        },
        (
          record {
            key_start = (refl, refl, refl, refl);
            key_plain = ground arith;
            key_lacks = ground arith;
            key_end = refl;
            value_plain = tt;
            value_start = tt;
            value_end = tt;
            fits = omega arith;
          },
          tt,
        ),
      ),
    ),
  ),
  (
    (
      record {
        some_name = refl;
        name_start = refl;
        name_plain = ground arith;
        name_lacks = ground arith;
        name_fits = omega arith;
      },
      (refl, tt),
      (
        record {
          key_start = (refl, refl, refl, refl);
          key_plain = ground arith;
          key_lacks = ground arith;
          key_end = refl;
          value_plain = tt;
          value_start = tt;
          value_end = tt;
          fits = omega arith;
        },
        tt,
      ),
    ),
    tt,
  ),
)

load-save_example :
    load (pos 7) true (codes "") (λ n. some (few n)) ((save (pos 3) sound).0) none []
    ≡ ok (
      record {
        name = codes "audio";
        tuples =
            record {
              key = codes "rate";
              value = codes "8000 Hz";
              layer = pos 7;
              lowest_layer = pos 7;
            }
            ∷ record { key = codes "off"; value = []; layer = pos 7; lowest_layer = pos 7 }
            ∷ [];
      }
          ∷ [],
      true,
    )
load-save_example = load-save (pos 3) (pos 7) (codes "") few sound sound-IsReadable
