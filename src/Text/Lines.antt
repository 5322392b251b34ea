-- ===== src/Text/Lines.antt =====
-- Lines as the readers of libhfp/hfp.cpp and hfpd/configfile.cpp find them in their buffers.
use nohands.Prelude.{ℕ, suc, Bool, ◌||◌, [], ◌∷◌, if◌then◌else◌}
use nohands.Text.{Bytes, is_ws, is_nl}

abbrev pub is_blank : ℕ → Bool
is_blank c = is_ws c || is_nl c

-- The white space and line ends at the front.
unfoldable pub blanks : Bytes → ℕ
blanks [] = 0
blanks (c ∷ buf) = let n = blanks buf in if is_blank c then suc n else 0

-- Up to the first line end, and from there on.
unfoldable pub line_of : Bytes → Bytes
line_of [] = []
line_of (c ∷ buf) = let line = line_of buf in if is_nl c then [] else c ∷ line

unfoldable pub past_line : Bytes → Bytes
past_line [] = []
past_line (c ∷ buf) = let rest = past_line buf in if is_nl c then c ∷ buf else rest
