-- ===== src/Tests/Readers.antt =====
-- Examples for the reader and for the client's operations of libhfp/hfp.cpp.
use nohands.Prelude.{◌<◌, ◌≡◌, refl, true, some, [], ◌∷◌, ◌++◌, All, length, arith}
use nohands.Text.{Bytes, codes}
use nohands.Faults.{ok, ◌>>=◌}
use nohands.Session.Lines.{consume_line}
use nohands.Session.Client.{atd_text, valid_phone_num, IsPlain, valid_phone_num-IsPlain}
use nohands.Session.Reader.{Reader, hfp_consume, received, hfp_data_ready}
use nohands.Session.Framing.{Done, Room, hfp_data_ready-Room, IsLine, hfp_consume-framed}
use nohands.Tests.Sessions.{ready}

abbrev number : Bytes
number = codes "+4915112345"

number_valid : valid_phone_num (some number) ≡ true
unfolding valid_phone_num
number_valid = refl

valid_phone_num-IsPlain_example : All IsPlain number × (length (atd_text number) < 64)
valid_phone_num-IsPlain_example = valid_phone_num-IsPlain number number_valid

-- Half of a line is there; the other half is read.
abbrev half : Reader
half = record { start = 0; rsp = codes "RI" }

hfp_data_ready-Room_example :
    Done Room (hfp_data_ready 12 (received b'N' (b'G' ∷ b'\r' ∷ b'\n' ∷ [])) half ready)
hfp_data_ready-Room_example =
    hfp_data_ready-Room 12 (received b'N' (b'G' ∷ b'\r' ∷ b'\n' ∷ [])) half ready (omega arith)

ring-IsLine : IsLine (codes "RING")
ring-IsLine = ground arith

hfp_consume-framed_example :
    hfp_consume (codes "RING" ++ b'\r' ∷ b'\n' ∷ []) ready
    ≡ (consume_line (codes "RING") ready >>= λ s'. ok (s', 5))
hfp_consume-framed_example =
    hfp_consume-framed b'R' (codes "ING") (b'\n' ∷ []) b'\r' ready ring-IsLine refl refl refl
