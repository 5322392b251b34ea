-- ===== src/Sound/Fill.antt =====
-- `TotalFill` of include/libhfp/soundio-buf.h against what the queue holds.
use nohands.Prelude.{
  ℕ, zero, suc, ◌+◌, ◌-◌, ◌*◌, ◌/◌, ◌<◌, ◌≡◌, refl, sym, ap, false, List, [], ◌∷◌, ◌++◌, ◌==◌,
  if◌then◌else◌, length, length-append, length-drop, drop, is_empty, arith,
}
use nohands.Text.{Bytes}
use nohands.Faults.{ok}
use nohands.Sound.Packets.{PacketSeq, is_single, total_fill}
use nohands.Sound.Contents.{concat, contents, Layout, SeqInv}
use nohands.Sound.Fifo.{drop_nil}

length-concat :
    (size tail_end : ℕ) (p : Bytes) (ps : List Bytes)
    → Layout size tail_end (p ∷ ps)
    → length (concat (p ∷ ps)) ≡ length ps * size + tail_end
length-concat size tail_end p [] h = omega (arith, length-append p [])
length-concat size tail_end p (q ∷ ps) h =
    omega (arith, length-append p (concat (q ∷ ps)), length-concat size tail_end q ps h.1, h.0)

fill_in : PacketSeq → List Bytes → ℕ
fill_in s ps =
    if is_empty ps
    then 0
    else if is_single ps
    then s.tail_end - s.head_start
    else (length ps - 2) * s.packetsize + s.tail_end + (s.packetsize - s.head_start)

two_less : (n m : ℕ) → (suc (suc n) - 2) * m ≡ n * m
two_less n m = ap (λ k. k * m) (omega arith)

one_more : (n m : ℕ) → suc n * m ≡ n * m + m
one_more n m = omega arith

fill_eq :
    (s : PacketSeq) (ps : List Bytes)
    → Layout s.packetsize s.tail_end ps
    → s.head_start < s.packetsize
    → length (drop s.head_start (concat ps)) ≡ fill_in s ps
unfolding fill_in
fill_eq s [] l h = ap length (drop_nil s.head_start)
fill_eq s (p ∷ []) l h = omega (arith, length-drop s.head_start (p ++ []), length-append p [], l)
fill_eq s (p ∷ q ∷ ps) l h = omega (
  arith,
  length-drop s.head_start (concat (p ∷ q ∷ ps)),
  length-concat s.packetsize s.tail_end p (q ∷ ps) l,
  two_less (length ps) s.packetsize,
  one_more (length ps) s.packetsize,
)

zero_over : (b : ℕ) → 0 < b → 0 / b ≡ 0
zero_over zero h = absurd (omega arith)
zero_over (suc k) h = grind arith

split_fill :
    (s : PacketSeq) (ps : List Bytes)
    → 0 < s.bpr
    → ok (
        if is_empty ps
        then 0
        else if is_single ps
        then (s.tail_end - s.head_start) / s.bpr
        else ((length ps - 2) * s.packetsize + s.tail_end + (s.packetsize - s.head_start)) / s.bpr)
      ≡ ok (fill_in s ps / s.bpr)
unfolding fill_in
split_fill s [] h = ap ok (sym (zero_over s.bpr h))
split_fill s (p ∷ []) h = refl
split_fill s (p ∷ q ∷ ps) h = refl

-- On a queue that keeps its invariant, with samples of at least a byte, TotalFill is the number of
-- whole samples among the bytes that the queue holds.
total_fill-contents :
    (s : PacketSeq) → SeqInv s → 0 < s.bpr → total_fill s ≡ ok (length (contents s) / s.bpr)
unfolding total_fill
total_fill-contents s v b =
    let there : (s.packetsize == 0) ≡ false = ground (arith, v.size_pos) in
    rw there (rw (fill_eq s s.packets v.layout v.head_less) (split_fill s s.packets b))
