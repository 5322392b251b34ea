-- ===== src/Tests/Settings.antt =====
-- Examples for the settings of hfpd/configfile.cpp.
use nohands.Prelude.{◌≡◌, refl, none, some, [], ◌∷◌, pos, arith}
use nohands.Text.{Bytes, codes, Lacks, str_eq, before, from, trim_end, skip_ws}
use nohands.Faults.{ok, ◌>>=◌}
use nohands.Faults.Post.{Holds}
use nohands.Config.{
  Tuple, Sections, create_section, create_tuple, delete_tuple, find_tuple, get_int, set_value,
  set_int, find_section,
}
use nohands.Config.Tuples.{IsTidy}
use nohands.Config.Stored.{Stored, set_value-Stored, delete-Stored}
use nohands.Config.Numbers.{get_int-set_int}
use nohands.Config.Parse.{Context, merge_tuple, parse_line}
use nohands.Config.Layers.{text_of, merge_layers}
use nohands.Config.Parsed.{Parsed}
use nohands.Config.Reopened.{SameFound, tuples_in, reopened_section}
use nohands.Config.Lines.{within}
use nohands.Config.Iterate.{Iterator, first_tuple, first, all_from}
use nohands.Config.First.{listing, first-hangs, first-lists}

abbrev audio : Bytes
audio = codes "audio"

abbrev key : Bytes
key = codes "rate"

abbrev rate : Bytes → Tuple
rate value = record { key = key; value = value; layer = pos 1; lowest_layer = pos 1 }

abbrev settings : Sections
settings = record { name = audio; tuples = rate (codes "8000") ∷ [] } ∷ []

settings-IsTidy : IsTidy settings
unfolding find_tuple
settings-IsTidy = ((refl, tt), tt)

set_value-Stored_example :
    Holds
      (Stored audio key (some (codes "16000")) settings)
      (set_value audio key (some (codes "16000")) settings)
set_value-Stored_example =
    set_value-Stored audio key (codes "16000") settings refl refl refl settings-IsTidy

delete-Stored_example : Holds (Stored audio key none settings) (set_value audio key none settings)
delete-Stored_example = delete-Stored audio key settings refl refl settings-IsTidy

get_int-set_int_example :
    Holds
      (λ secs. get_int audio key secs ≡ ok (secs, some (pos 16000)))
      (set_int audio key (pos 16000) settings)
get_int-set_int_example =
    get_int-set_int audio key 16000 settings refl refl (omega arith) settings-IsTidy

nothing_found : find_tuple key [] ≡ none
unfolding find_tuple
nothing_found = refl

merge_layers_example :
    Holds
      (λ r. text_of (find_tuple key r) ≡ some (codes "2"))
      (merge_tuple (pos 1) key (codes "1") [] >>= merge_tuple (pos 2) key (codes "2"))
    × Holds
        (λ r. text_of (find_tuple key r) ≡ some (codes "2"))
        (merge_tuple (pos 2) key (codes "2") [] >>= merge_tuple (pos 1) key (codes "1"))
merge_layers_example =
    merge_layers (pos 1) (pos 2) key (codes "1") (codes "2") [] refl refl tt nothing_found

abbrev loaded : Context
loaded = record { secs = settings; cursec = some 0 }

loaded-Parsed : Parsed loaded
loaded-Parsed = record { tidy = settings-IsTidy; current = omega arith }

audio-Lacks : Lacks b']' audio
audio-Lacks = ground arith

audio_there : find_section audio settings ≡ some (rate (codes "8000") ∷ [])
unfolding find_section str_eq
audio_there = refl

reopened_section_example :
    ((parse_line (pos 2) (codes "[audio]") loaded >>= parse_line (pos 2) (codes "rate = 16000"))
      ≡ ok (within settings audio (tuples_in (pos 2) (codes "rate = 16000"))))
    × SameFound settings (within settings audio (tuples_in (pos 2) (codes "rate = 16000")))
reopened_section_example =
    reopened_section (pos 2) audio [] b'r' (codes "ate = 16000") (rate (codes "8000") ∷ []) loaded
      audio-Lacks refl refl audio_there (ground arith) refl

-- The file's second value for the key is behind the first.
reload_run :
    (parse_line (pos 2) (codes "[audio]") loaded >>= parse_line (pos 2) (codes "rate = 16000"))
    ≡ ok (record {
      secs =
          record { name = audio; tuples = rate (codes "8000") ∷ [] }
          ∷ record {
            name = audio;
            tuples =
                record { key = key; value = codes "16000"; layer = pos 2; lowest_layer = pos 2 }
                ∷ [];
          }
          ∷ [];
      cursec = some 1;
    })
unfolding parse_line from skip_ws before create_section trim_end find_tuple create_tuple
    delete_tuple
reload_run = refl

abbrev deleted : Sections
deleted = record { name = audio; tuples = rate [] ∷ [] } ∷ []

abbrev at_deleted : Iterator
at_deleted = record { sec = audio; tup = rate []; tups = []; secs = [] }

deleted_first : first_tuple deleted ≡ some at_deleted
unfolding first_tuple
deleted_first = refl

first-hangs_example : first 1000 deleted ≡ none
first-hangs_example = first-hangs 1000 deleted at_deleted deleted_first refl

abbrev at_rate : Iterator
at_rate = record { sec = audio; tup = rate (codes "8000"); tups = []; secs = [] }

first_run : first 1 settings ≡ some (some at_rate)
unfolding first
first_run = refl

first-lists_example : all_from 1 (some at_rate) ≡ listing settings
first-lists_example = first-lists 1 1 settings (some at_rate) first_run (omega arith)
