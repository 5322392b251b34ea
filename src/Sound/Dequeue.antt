-- ===== src/Sound/Dequeue.antt =====
-- `Dequeue` of include/libhfp/soundio-buf.h takes from the front of what has been put in.
use mathlib.Core.List.{append-nil}
use nohands.Prelude.{
  ℕ, ◌+◌, ◌-◌, ◌*◌, ◌<◌, ◌≤◌, ◌≡◌, ◌∙◌, refl, sym, ap, List, [], ◌∷◌, ◌++◌, ◌==◌, ltb, length,
  length-append, length-drop, drop, arith,
}
use nohands.Text.{Bytes}
use nohands.Faults.{◌>>=◌}
use nohands.Faults.Post.{Holds, Post-bind, Post-if, Post-weaken}
use nohands.Sound.Packets.{
  PacketSeq, drop_first, dequeue_loop, dequeue_many, dequeue_in, dequeue, then_last,
}
use nohands.Sound.Contents.{concat, contents, Layout, SeqInv}
use nohands.Sound.Fifo.{
  drop_nil, drop_plus, drop_first_part, drop_at, behind, drop_first-behind, Stopped,
  dequeue_loop-Stopped, advance-SeqInv, Taken, dequeue_last-Taken, then_last-Taken,
}

looped-Taken :
    (ps : List Bytes) (nbytes : ℕ) (s : PacketSeq)
    → s.packets ≡ ps
    → s.head_start ≡ 0
    → SeqInv s
    → nbytes < length (contents s)
    → Holds (Taken nbytes s) (dequeue_loop ps nbytes s >>= then_last)
looped-Taken ps nbytes s e z v h =
    Post-bind ⊥ (Stopped s nbytes) (Taken nbytes s) (dequeue_loop ps nbytes s) then_last
      (dequeue_loop-Stopped ps nbytes s e z v h) (λ r w. then_last-Taken s nbytes r w)

-- The first packet, of several, is taken to its end, and then the loop begins.
past_first :
    (p q : Bytes) (ps : List Bytes) (nbytes : ℕ) (s : PacketSeq)
    → s.packets ≡ p ∷ q ∷ ps
    → SeqInv s
    → nbytes < length (contents s)
    → s.packetsize - s.head_start ≤ nbytes
    → Holds (Taken nbytes s) (
        drop_first (q ∷ ps) (record s { head_start = 0 }) >>= λ s'.
        dequeue_loop (q ∷ ps) (nbytes - (s.packetsize - s.head_start)) s' >>= then_last)
past_first p q ps nbytes s e v h l =
    let b = drop_first-behind (q ∷ ps) (record s { head_start = 0 }) refl in
    let next = behind (record s { head_start = 0 }) (q ∷ ps) b.0 in
    let lay : (length p ≡ s.packetsize) × Layout s.packetsize s.tail_end (q ∷ ps) =
      rw e at v.layout in
    let c : contents s ≡ drop s.head_start (p ++ concat (q ∷ ps)) =
      ap (λ x. drop s.head_start (concat x)) e in
    let skip : drop nbytes (contents s)
        ≡ drop (nbytes - (s.packetsize - s.head_start)) (concat (q ∷ ps)) =
      ap (drop nbytes) c
      ∙ drop_plus s.head_start nbytes (p ++ concat (q ∷ ps))
      ∙ drop_first_part (s.head_start + nbytes) p (concat (q ∷ ps))
          (omega (arith, lay.0, v.head_less))
      ∙ drop_at _ _ (concat (q ∷ ps)) (omega (arith, lay.0, v.head_less)) in
    rw (b.1) (
      Post-weaken ⊥ (Taken (nbytes - (s.packetsize - s.head_start)) next) (Taken nbytes s)
        (dequeue_loop (q ∷ ps) (nbytes - (s.packetsize - s.head_start)) next >>= then_last)
        (λ s' t. record { inv = t.inv; rest = t.rest ∙ sym skip })
        (looped-Taken (q ∷ ps) (nbytes - (s.packetsize - s.head_start)) next refl refl
          (record {
            layout = lay.1;
            size_pos = v.size_pos;
            tail_fits = v.tail_fits;
            head_fits = omega arith;
            head_less = v.size_pos;
          })
          (omega (
            arith,
            h,
            l,
            lay.0,
            v.head_less,
            ap length c,
            length-drop s.head_start (p ++ concat (q ∷ ps)),
            length-append p (concat (q ∷ ps)),
          ))))

dequeue_many-Taken :
    (p q : Bytes) (ps : List Bytes) (nbytes : ℕ) (s : PacketSeq)
    → s.packets ≡ p ∷ q ∷ ps
    → SeqInv s
    → nbytes < length (contents s)
    → Holds (Taken nbytes s) (dequeue_many nbytes p (q ∷ ps) s)
unfolding dequeue_many
dequeue_many-Taken p q ps nbytes s e v h =
    let lay : (length p ≡ s.packetsize) × Layout s.packetsize s.tail_end (q ∷ ps) =
      rw e at v.layout in
    Post-if ⊥ (Taken nbytes s) (s.head_start == 0) _ _
      (λ z. looped-Taken (p ∷ q ∷ ps) nbytes s e (ground arith) v h)
      (λ _.
        Post-if ⊥ (Taken nbytes s) (ltb nbytes (s.packetsize - s.head_start)) _ _
          (λ l.
            let small : s.head_start + nbytes < s.packetsize = ground arith in
            record {
              inv = advance-SeqInv s p (q ∷ ps) nbytes e v (omega (arith, lay.0, small)) small;
              rest = sym (drop_plus s.head_start nbytes (concat s.packets));
            })
          (λ l. past_first p q ps nbytes s e v h (ground arith)))

dequeue_in-Taken :
    (nsamples nbytes : ℕ) (ps : List Bytes) (s : PacketSeq)
    → s.packets ≡ ps
    → SeqInv s
    → nbytes < length (contents s)
    → Holds (Taken nbytes s) (dequeue_in nsamples nbytes ps s)
unfolding dequeue_in
dequeue_in-Taken nsamples nbytes [] s e v h =
    absurd (
      omega
        (arith, h, ap length (ap (λ x. drop s.head_start (concat x)) e ∙ drop_nil s.head_start)))
dequeue_in-Taken nsamples nbytes (p ∷ []) s e v h =
    let one : length p ≡ s.tail_end = rw e at v.layout in
    let c : contents s ≡ drop s.head_start (p ++ []) = ap (λ x. drop s.head_start (concat x)) e in
    dequeue_last-Taken s (p ∷ []) nbytes e v h (
      omega (
        arith,
        h,
        one,
        v.tail_fits,
        ap length c,
        length-drop s.head_start (p ++ []),
        ap length (append-nil p),
      ))
dequeue_in-Taken nsamples nbytes (p ∷ q ∷ ps) s e v h = dequeue_many-Taken p q ps nbytes s e v h

-- On a queue that keeps its invariant, fewer samples than it holds are taken from its front: no
-- assertion fails, what was behind them is what the queue then holds, and the invariant is kept.
pub dequeue-Taken :
    (nsamples : ℕ) (s : PacketSeq)
    → SeqInv s
    → nsamples * s.bpr < length (contents s)
    → Holds (Taken (nsamples * s.bpr) s) (dequeue nsamples s)
unfolding dequeue
dequeue-Taken nsamples s v h = dequeue_in-Taken nsamples (nsamples * s.bpr) s.packets s refl v h
