-- ===== src/Config/Save.antt =====
-- `Save` of hfpd/configfile.cpp: the text of the file, and the layers behind it. All writes succeed;
-- the first two lines of the file are comments.
use nohands.Prelude.{
  is_empty, Bool, true, false, not, ◌&&◌, ◌||◌, List, [], ◌∷◌, ◌++◌, map, if◌then◌else◌, ℤ, leb_ℤ,
  ltb_ℤ,
}
use nohands.Text.{Bytes, codes}
use nohands.Config.{Tuple, Section, Sections}

abbrev pub is_written : ℤ → Tuple → Bool
is_written layer t = leb_ℤ layer t.layer && (not (is_empty t.value) || ltb_ℤ t.lowest_layer layer)

abbrev pub header_text : Bytes → Bytes
header_text name = b'\n' ∷ b'[' ∷ (name ++ b']' ∷ b'\n' ∷ [])

abbrev pub tuple_text : Tuple → Bytes
tuple_text t = t.key ++ b' ' ∷ b'=' ∷ b' ' ∷ (t.value ++ b'\n' ∷ [])

-- The tuples of a section; the flag is `wrote_sect`.
unfoldable pub save_tuples : ℤ → Bytes → Bool → List Tuple → Bytes
save_tuples layer name wrote [] = []
save_tuples layer name wrote (t ∷ tups) =
    let skipped = save_tuples layer name wrote tups in
    let rest = save_tuples layer name true tups in
    if is_written layer t
    then (if wrote then [] else header_text name) ++ (tuple_text t ++ rest)
    else skipped

unfoldable pub save_sections : ℤ → Sections → Bytes
unfolding save_tuples
save_sections layer [] = []
save_sections layer (sec ∷ secs) =
    save_tuples layer sec.name false sec.tuples ++ save_sections layer secs

abbrev pub saved_tuple : ℤ → Tuple → Tuple
saved_tuple layer t = if is_written layer t then record t { layer = layer } else t

abbrev pub saved_section : ℤ → Section → Section
saved_section layer sec = record sec { tuples = map (saved_tuple layer) sec.tuples }

-- The file and the settings behind `Save`.
unfoldable pub save : ℤ → Sections → Bytes × Sections
unfolding save_sections
save layer secs = (
  codes "# Local settings file for hfpd\n# Automatically generated, comments will be lost\n"
      ++ save_sections layer secs,
  map (saved_section layer) secs,
)
