-- ===== src/Session/Framing.antt =====
-- The reader of libhfp/hfp.cpp comes to the end of what it has read, finds the lines in it, and
-- always has room for the next read.
use nohands.Prelude.{
  ℕ, zero, suc, ◌+◌, ◌-◌, ◌<◌, ◌≤◌, ◌≡◌, ◌≢◌, refl, Bool, true, false, not, ◌&&◌, Option, none,
  some, [], ◌∷◌, ◌++◌, ◌==◌, leb, ltb, if◌then◌else◌, length, drop, All, arith, length-append,
  length-drop,
}
use nohands.Text.{Bytes, is_nl, before}
use nohands.Faults.{Result, ok, fault, ◌>>=◌, assert}
use nohands.Faults.Post.{IfOk, Post-bind, Post-map, Post-if, Post-trivial}
use nohands.Session.{HfpSession, is_rfcomm_connected}
use nohands.Session.Disconnect.{disconnect}
use nohands.Session.Lines.{consume_line}
use nohands.Text.Lines.{is_blank, blanks, line_of, past_line}
use nohands.Session.Reader.{
  Reader, empty_reader, and_then, buf_size, ends_well, take_line, hfp_consume, no_line, data_loop,
  ReadResult, read_error, closed, received, hung_up, received_in, answer, hfp_data_ready,
}

length-blanks : (buf : Bytes) → blanks buf ≤ length buf
unfolding blanks
length-blanks [] = omega arith
length-blanks (c ∷ buf) = ground (arith, length-blanks buf)

length-line : (buf : Bytes) → length (line_of buf) + length (past_line buf) ≡ length buf
unfolding line_of past_line
length-line [] = omega arith
length-line (c ∷ buf) = ground (arith, length-line buf)

take_line-bounded :
    (c : ℕ) (line rest : Bytes) (s : HfpSession)
    → IfOk (λ r. r.1 ≤ length line + length rest + 1) (take_line c line rest s)
unfolding take_line
take_line-bounded c line [] s = omega arith
take_line-bounded c line (_ ∷ rest) s =
    Post-bind (Unit {0}) (λ _. Unit {0}) _ (consume_line (before 0 (c ∷ line)) s) _
      (Post-trivial (consume_line (before 0 (c ∷ line)) s))
      (λ s' _.
        Post-bind (Unit {0}) (λ _. Unit {0}) _ (assert (ends_well rest)) _
          (Post-trivial (assert (ends_well rest))) (λ _ _. omega arith))

-- `HfpConsume` uses up no more than it is given.
hfp_consume-bounded :
    (buf : Bytes) (s : HfpSession) → IfOk (λ r. r.1 ≤ length buf) (hfp_consume buf s)
unfolding hfp_consume
hfp_consume-bounded [] s = tt
hfp_consume-bounded (c ∷ buf) s =
    ground (
      arith,
      length-blanks buf,
      length-line buf,
      take_line-bounded c (line_of buf) (past_line buf) s,
    )

-- The reader comes to an end, and if that is no fault, the result satisfies `P`.
abbrev pub Done {ℓ} : {A : Type ℓ} → (A → Type 0) → Option (Result A) → Type 0
Done P none = ⊥
Done P (some r) = IfOk P r

and_then-Done {ℓ κ} :
    {A : Type ℓ} {B : Type κ} (P : A → Type 0) (Q : B → Type 0) (m : Result A)
    (f : A → Option (Result B))
    → IfOk P m
    → ((a : A) → P a → Done Q (f a))
    → Done Q (and_then m f)
and_then-Done P Q (ok a) f h k = k a h
and_then-Done P Q (fault e) f h k = tt

if-Done {ℓ} :
    {A : Type ℓ} (P : A → Type 0) (b : Bool) (m n : Option (Result A))
    → (b ≡ true → Done P m)
    → (b ≡ false → Done P n)
    → Done P (if b then m else n)
if-Done P true m n h k = h refl
if-Done P false m n h k = k refl

-- There is room for another byte.
abbrev pub Room : HfpSession × Reader → Type 0
Room r = r.1.start + length (r.1.rsp) < buf_size

hung_up-Room : (s : HfpSession) → IfOk Room (hung_up s)
hung_up-Room s =
    Post-map (Unit {0}) (λ _. Unit {0}) Room (disconnect true s) (λ s'. (s', empty_reader))
      (Post-trivial (disconnect true s)) (λ s' _. omega arith)

no_line-Room :
    (start : ℕ) (buf : Bytes) (s : HfpSession)
    → start + length buf ≤ buf_size
    → IfOk Room (no_line start buf s)
unfolding no_line
no_line-Room start buf s h =
    Post-if (Unit {0}) Room (start + length buf == buf_size) _ _
      (λ e. Post-if (Unit {0}) Room (start == 0) _ _ (λ z. hung_up-Room s) (λ z. ground arith))
      (λ e. ground arith)

data_loop-Room :
    (fuel start : ℕ) (buf : Bytes) (s : HfpSession)
    → 0 < length buf
    → length buf ≤ fuel
    → start + length buf ≤ buf_size
    → Done Room (data_loop fuel start buf s)
unfolding data_loop
data_loop-Room zero start buf s p h l = absurd (omega arith)
data_loop-Room (suc fuel) start buf s p h l =
    and_then-Done (λ r. r.1 ≤ length buf) Room (hfp_consume buf s) _ (hfp_consume-bounded buf s)
      (λ r b.
        if-Done Room (not (is_rfcomm_connected r.0)) _ _ (λ _. omega arith)
          (λ _.
            if-Done Room (r.1 == 0) _ _ (λ _. no_line-Room start buf r.0 l)
              (λ z.
                if-Done Room (not (leb r.1 (length buf))) _ _ (λ _. tt)
                  (λ m.
                    if-Done Room (r.1 == length buf) _ _ (λ _. omega arith)
                      (λ q.
                        data_loop-Room fuel (start + r.1) (drop (r.1) buf) r.0
                          (ground (arith, b, length-drop (r.1) buf))
                          (ground (arith, length-drop (r.1) buf))
                          (omega (arith, b, length-drop (r.1) buf)))))))

received-Room :
    (rounds : ℕ) (rd : Reader) (b : ℕ) (bytes : Bytes) (s : HfpSession)
    → length rd.rsp + length (b ∷ bytes) ≤ rounds
    → Room (s, rd)
    → Done Room (received_in rounds rd (b ∷ bytes) s)
received-Room rounds rd b bytes s n m =
    let l = length-append rd.rsp (b ∷ bytes) in
    if-Done Room (leb (length (b ∷ bytes)) (buf_size - (rd.start + length rd.rsp))) _ _
      (λ h.
        data_loop-Room rounds rd.start (rd.rsp ++ b ∷ bytes) s (omega (arith, l)) (omega (arith, l))
          (ground (arith, l)))
      (λ _. tt)

-- The bytes in the buffer once `read` has answered, where the answer brings any.
abbrev pub in_buffer : ReadResult → Reader → ℕ
in_buffer (read_error fatal) rd = 0
in_buffer closed rd = 0
in_buffer (received b bytes) rd = length rd.rsp + length (b ∷ bytes)

answer-Room :
    (rounds : ℕ) (r : ReadResult) (rd : Reader) (s : HfpSession)
    → in_buffer r rd ≤ rounds
    → Room (s, rd)
    → Done Room (answer rounds r rd s)
answer-Room rounds (read_error fatal) rd s n m =
    Post-if (Unit {0}) Room fatal _ _ (λ _. hung_up-Room s) (λ _. m)
answer-Room rounds closed rd s n m = hung_up-Room s
answer-Room rounds (received b bytes) rd s n m = received-Room rounds rd b bytes s n m

-- HfpDataReady, whose loop is allowed at least as many rounds as there are bytes in the buffer
-- once read has answered, comes to its end, whatever read answers; unless the run ends in a fault,
-- the buffer then has room for another byte, which is what the next call asserts.
pub hfp_data_ready-Room :
    (rounds : ℕ) (r : ReadResult) (rd : Reader) (s : HfpSession)
    → in_buffer r rd ≤ rounds
    → Done Room (hfp_data_ready rounds r rd s)
unfolding hfp_data_ready
hfp_data_ready-Room rounds r rd s n =
    if-Done Room (not (is_rfcomm_connected s && ltb (rd.start + length rd.rsp) buf_size)) _ _
      (λ _. tt) (λ h. answer-Room rounds r rd s n (ground arith))

-- No byte of the line is a line end or a NUL.
abbrev pub IsLine : Bytes → Type 0
IsLine line = All (λ c. (is_nl c ≡ false) × (c ≢ 0)) line

line_of-append :
    (line rest : Bytes) (nl : ℕ)
    → IsLine line
    → is_nl nl ≡ true
    → line_of (line ++ nl ∷ rest) ≡ line
unfolding line_of
line_of-append [] rest nl h n = rw n refl
line_of-append (c ∷ line) rest nl h n = ground (arith, line_of-append line rest nl h.1 n)

past_line-append :
    (line rest : Bytes) (nl : ℕ)
    → IsLine line
    → is_nl nl ≡ true
    → past_line (line ++ nl ∷ rest) ≡ nl ∷ rest
unfolding past_line
past_line-append [] rest nl h n = rw n refl
past_line-append (c ∷ line) rest nl h n = ground (arith, past_line-append line rest nl h.1 n)

lacks_nul : (line : Bytes) → IsLine line → before 0 line ≡ line
unfolding before
lacks_nul [] h = refl
lacks_nul (c ∷ line) h = ground (arith, lacks_nul line h.1)

-- A line that begins with no white space and holds no NUL is handed to its consumer as it stands,
-- once its line end has arrived, and if what follows does not end in a NUL, and it is used up with
-- the line end and no more.
pub hfp_consume-framed :
    (c : ℕ) (line rest : Bytes) (nl : ℕ) (s : HfpSession)
    → IsLine (c ∷ line)
    → is_blank c ≡ false
    → is_nl nl ≡ true
    → ends_well rest ≡ true
    → hfp_consume (c ∷ (line ++ nl ∷ rest)) s
      ≡ (consume_line (c ∷ line) s >>= λ s'. ok (s', suc (suc (length line))))
unfolding hfp_consume take_line
hfp_consume-framed c line rest nl s h b n e = ground (
  arith,
  b,
  line_of-append line rest nl h.1 n,
  past_line-append line rest nl h.1 n,
  lacks_nul (c ∷ line) h,
  e,
)
