-- ===== src/Sound/Contents.antt =====
-- What a PacketSeq of include/libhfp/soundio-buf.h holds, as one sequence of bytes, and that
-- `PutUnfilled` adds to its end.
use mathlib.Core.List.{append-nil, append_assoc}
use nohands.Prelude.{
  ℕ, zero, suc, ◌+◌, ◌*◌, ◌<◌, ◌≤◌, ◌≡◌, ◌≢◌, ◌∙◌, refl, sym, ap, true, List, [], ◌∷◌, ◌++◌, leb,
  length, length-append, length-take, take, drop, arith,
}
use nohands.Text.{Bytes}
use nohands.Faults.Post.{Holds}
use nohands.Sound.Packets.{PacketSeq, append_last, put_unfilled}

abbrev pub concat : List Bytes → Bytes
concat [] = []
concat (p ∷ ps) = p ++ concat ps

abbrev pub contents : PacketSeq → Bytes
contents s = drop s.head_start (concat s.packets)

-- All packets but the last are full, and the last ends at `tail_end`.
abbrev pub Layout : ℕ → ℕ → List Bytes → Type 0
Layout size tail_end [] = tail_end ≡ 0
Layout size tail_end (p ∷ []) = length p ≡ tail_end
Layout size tail_end (p ∷ q ∷ ps) = (length p ≡ size) × Layout size tail_end (q ∷ ps)

-- The bytes of the first packet.
abbrev pub first_length : List Bytes → ℕ
first_length [] = 0
first_length (p ∷ ps) = length p

pub record SeqInv (s : PacketSeq) : Type 0 where
  pub layout : Layout s.packetsize s.tail_end s.packets
  pub size_pos : 0 < s.packetsize
  pub tail_fits : s.tail_end ≤ s.packetsize
  pub head_fits : s.head_start ≤ first_length s.packets
  pub head_less : s.head_start < s.packetsize

pub concat-append_last :
    (bytes : Bytes) (ps : List Bytes) → ps ≢ [] → concat (append_last bytes ps) ≡ concat ps ++ bytes
unfolding append_last
concat-append_last bytes [] h = absurd (h refl)
concat-append_last bytes (p ∷ []) h = append-nil _ ∙ ap (λ x. x ++ bytes) (sym (append-nil p))
concat-append_last bytes (p ∷ q ∷ ps) h =
    ap (λ x. p ++ x) (concat-append_last bytes (q ∷ ps) (λ e. cc))
    ∙ sym (append_assoc p (concat (q ∷ ps)) bytes)

pub Layout-cons :
    (size tail_end : ℕ) (p : Bytes) (ps : List Bytes)
    → ps ≢ []
    → length p ≡ size
    → Layout size tail_end ps
    → Layout size tail_end (p ∷ ps)
Layout-cons size tail_end p [] n e h = absurd (n refl)
Layout-cons size tail_end p (q ∷ ps) n e h = (e, h)

append_last-ne : (bytes p : Bytes) (ps : List Bytes) → append_last bytes (p ∷ ps) ≢ []
unfolding append_last
append_last-ne bytes p [] = λ e. cc
append_last-ne bytes p (q ∷ ps) = λ e. cc

Layout-append_last :
    (bytes : Bytes) (size tail_end : ℕ) (ps : List Bytes)
    → ps ≢ []
    → Layout size tail_end ps
    → Layout size (tail_end + length bytes) (append_last bytes ps)
unfolding append_last
Layout-append_last bytes size tail_end [] n h = absurd (n refl)
Layout-append_last bytes size tail_end (p ∷ []) n h = omega (arith, length-append p bytes)
Layout-append_last bytes size tail_end (p ∷ q ∷ ps) n h =
    Layout-cons size (tail_end + length bytes) p (append_last bytes (q ∷ ps))
      (append_last-ne bytes q ps) h.0
      (Layout-append_last bytes size tail_end (q ∷ ps) (λ e. cc) h.1)

first-append_last :
    (bytes : Bytes) (ps : List Bytes) → first_length ps ≤ first_length (append_last bytes ps)
unfolding append_last
first-append_last bytes [] = omega arith
first-append_last bytes (p ∷ []) = omega (arith, length-append p bytes)
first-append_last bytes (p ∷ q ∷ ps) = omega arith

drop-append : (n : ℕ) (a b : Bytes) → n ≤ length a → drop n (a ++ b) ≡ drop n a ++ b
drop-append zero a b h = refl
drop-append (suc n) [] b h = absurd (omega arith)
drop-append (suc n) (c ∷ a) b h = drop-append n a b (omega arith)

pub first_in_concat : (ps : List Bytes) → first_length ps ≤ length (concat ps)
first_in_concat [] = omega arith
first_in_concat (p ∷ ps) = omega (arith, length-append p (concat ps))

-- On a queue that keeps its invariant and has a packet, samples that fit the space that is left in
-- it go behind what the queue holds, nothing is lost, and the invariant is kept.
pub put_unfilled-appends :
    (nsamples : ℕ) (space : Bytes) (s : PacketSeq)
    → SeqInv s
    → s.packets ≢ []
    → nsamples * s.bpr + s.tail_end ≤ s.packetsize
    → nsamples * s.bpr ≤ length space
    → Holds
        (λ s'. (contents s' ≡ contents s ++ take (nsamples * s.bpr) space) × SeqInv s')
        (put_unfilled nsamples space s)
unfolding put_unfilled
put_unfilled-appends nsamples space s v n h l =
    let bytes = take (nsamples * s.bpr) space in
    let fits : leb (nsamples * s.bpr + s.tail_end) s.packetsize ≡ true = ground arith in
    let count = length-take (nsamples * s.bpr) space l in
    rw fits (
      ap (drop s.head_start) (concat-append_last bytes s.packets n)
          ∙ drop-append s.head_start (concat s.packets) bytes
              (omega (arith, v.head_fits, first_in_concat s.packets)),
      record {
        layout =
            rw count at (Layout-append_last bytes s.packetsize s.tail_end s.packets n v.layout);
        size_pos = v.size_pos;
        tail_fits = omega (arith, h);
        head_fits = omega (arith, v.head_fits, first-append_last bytes s.packets);
        head_less = v.head_less;
      },
    )
