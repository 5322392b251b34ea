-- ===== src/Sound/Fifo.antt =====
-- The parts of `Dequeue` of include/libhfp/soundio-buf.h: the loop over whole packets, and the packet in
-- which it ends.
use mathlib.Core.List.{append-nil}
use nohands.Prelude.{
  ℕ, zero, suc, ◌+◌, ◌-◌, ◌<◌, ◌≤◌, ◌≡◌, ◌≢◌, inl, inr, ◌∙◌, refl, sym, ap, true, false, ◌&&◌,
  Bool-cases, List, [], ◌∷◌, ◌++◌, ◌==◌, ltb, leb, if◌then◌else◌, length, length-append,
  length-drop, drop, is_empty, arith,
}
use nohands.Text.{Bytes}
use nohands.Faults.{ok}
use nohands.Faults.Post.{Holds, Post-if, Post-weaken}
use nohands.Sound.Packets.{PacketSeq, put_buffer, drop_first, dequeue_loop, dequeue_last, then_last}
use nohands.Sound.Contents.{concat, contents, Layout, SeqInv}

pub drop_nil : (n : ℕ) → drop {A = ℕ} n [] ≡ []
drop_nil zero = refl
drop_nil (suc n) = refl

pub drop_at : (n m : ℕ) (a : Bytes) → n ≡ m → drop n a ≡ drop m a
drop_at n m a e = ap (λ k. drop k a) e

pub drop_plus : (n m : ℕ) (a : Bytes) → drop m (drop n a) ≡ drop (n + m) a
drop_plus zero m a = ap (λ k. drop k a) (omega arith)
drop_plus (suc n) m [] = drop_nil m ∙ sym (drop_nil (suc n + m))
drop_plus (suc n) m (c ∷ a) =
    drop_plus n m a ∙ drop_at (suc (n + m)) (suc n + m) (c ∷ a) (omega arith)

-- Dropping all of the first part of a sequence, and more.
pub drop_first_part : (n : ℕ) (a b : Bytes) → length a ≤ n → drop n (a ++ b) ≡ drop (n - length a) b
drop_first_part n [] b h = ap (λ k. drop k b) (omega arith)
drop_first_part zero (c ∷ a) b h = absurd (omega arith)
drop_first_part (suc n) (c ∷ a) b h =
    drop_first_part n a b (omega arith) ∙ ap (λ k. drop k b) (omega arith)

put_buffer_same : (s : PacketSeq) → put_buffer s ≡ record s { nfree = (put_buffer s).nfree }
unfolding put_buffer
put_buffer_same s = elim (Bool-cases (ltb 10 s.nfree)) [ inl q ↦ rw q refl | inr q ↦ rw q refl ]

-- The first packet: of several it is full.
pub first_full :
    (size tail_end : ℕ) (p : Bytes) (ps : List Bytes)
    → Layout size tail_end (p ∷ ps)
    → tail_end ≤ size
    → (length p ≤ size)
      × (length (concat ps) ≢ 0
          → (length p ≡ size) × (is_empty ps ≡ false) × Layout size tail_end ps)
first_full size tail_end p [] h t = (omega arith, λ n. absurd (n refl))
first_full size tail_end p (q ∷ ps) h t = (omega (arith, h.0), λ n. (h.0, refl, h.1))

pub at_front :
    (s : PacketSeq) (ps : List Bytes) → s.packets ≡ ps → s.head_start ≡ 0 → contents s ≡ concat ps
at_front s ps e z = ap (λ n. drop n (concat s.packets)) z ∙ ap concat e

-- The queue without its first packet.
abbrev pub behind : PacketSeq → List Bytes → ℕ → PacketSeq
behind s ps n = record s { packets = ps; nfree = n }

pub behind-SeqInv :
    (s : PacketSeq) (ps : List Bytes) (n : ℕ)
    → s.head_start ≡ 0
    → SeqInv s
    → Layout s.packetsize s.tail_end ps
    → SeqInv (behind s ps n)
behind-SeqInv s ps n z v l = record {
  layout = l;
  size_pos = v.size_pos;
  tail_fits = v.tail_fits;
  head_fits = omega (arith, z);
  head_less = v.head_less;
}

pub drop_first-behind :
    (ps : List Bytes) (s : PacketSeq)
    → s.head_start ≡ 0
    → (n : ℕ) × (drop_first ps s ≡ ok (behind s ps n))
unfolding drop_first
drop_first-behind ps s z =
    let at : (s.head_start == 0) ≡ true = ground arith in
    (
      (put_buffer (record s { packets = ps })).nfree,
      rw at (ap ok (put_buffer_same (record s { packets = ps }))),
    )

-- Where the loop of whole packets stops: less than a packet is left to take, and that is there.
pub record Stopped (s : PacketSeq) (nbytes : ℕ) (r : PacketSeq × ℕ) : Type 0 where
  pub inv : SeqInv r.0
  pub at_head : r.0.head_start ≡ 0
  pub same : drop (r.1) (contents r.0) ≡ drop nbytes (contents s)
  pub less : r.1 < r.0.packetsize
  pub left : r.1 < length (contents r.0)

pub dequeue_loop-Stopped :
    (ps : List Bytes) (nbytes : ℕ) (s : PacketSeq)
    → s.packets ≡ ps
    → s.head_start ≡ 0
    → SeqInv s
    → nbytes < length (contents s)
    → Holds (Stopped s nbytes) (dequeue_loop ps nbytes s)
unfolding dequeue_loop drop_first
dequeue_loop-Stopped [] nbytes s e z v h = absurd (omega (arith, h, ap length (at_front s [] e z)))
dequeue_loop-Stopped (p ∷ ps) nbytes s e z v h =
    let c = at_front s (p ∷ ps) e z in
    Post-if ⊥ (Stopped s nbytes) (leb s.packetsize nbytes) _ _
      (λ q.
        let full = first_full s.packetsize s.tail_end p ps (rw e at v.layout) v.tail_fits in
        let more =
          full.1 (λ w.
            absurd (ground (arith, h, ap length c, length-append p (concat ps), full.0, w))) in
        let whole : s.packetsize ≤ nbytes = ground arith in
        let b = drop_first-behind ps s z in
        let next = behind s ps b.0 in
        let skip = drop_first_part nbytes p (concat ps) (omega (arith, more.0)) in
        let shift = at_front next ps refl z in
        rw (more.1) (
          rw (b.1) (
            Post-weaken ⊥ (Stopped next (nbytes - s.packetsize)) (Stopped s nbytes)
              (dequeue_loop ps (nbytes - s.packetsize) next)
              (λ r w. record {
                inv = w.inv;
                at_head = w.at_head;
                less = w.less;
                left = w.left;
                same =
                    w.same
                    ∙ ap (drop (nbytes - s.packetsize)) shift
                    ∙ drop_at _ _ (concat ps) (omega (arith, more.0))
                    ∙ sym skip
                    ∙ sym (ap (drop nbytes) c);
              })
              (dequeue_loop-Stopped ps (nbytes - s.packetsize) next refl z
                (behind-SeqInv s ps b.0 z v more.2)
                (ground (
                  arith,
                  h,
                  ap length c,
                  length-append p (concat ps),
                  more.0,
                  ap length shift,
                  q,
                ))))))
      (λ q. record { inv = v; at_head = z; same = refl; less = ground arith; left = h })

-- Moving the head on inside the first packet.
pub advance-SeqInv :
    (s : PacketSeq) (p : Bytes) (ps : List Bytes) (nbytes : ℕ)
    → s.packets ≡ p ∷ ps
    → SeqInv s
    → s.head_start + nbytes ≤ length p
    → s.head_start + nbytes < s.packetsize
    → SeqInv (record s { head_start = s.head_start + nbytes })
advance-SeqInv s p ps nbytes e v h l = record {
  layout = v.layout;
  size_pos = v.size_pos;
  tail_fits = v.tail_fits;
  head_fits = rw e h;
  head_less = l;
}

-- `nbytes` have been taken from the front.
pub record Taken (nbytes : ℕ) (s s' : PacketSeq) : Type 0 where
  pub inv : SeqInv s'
  pub rest : contents s' ≡ drop nbytes (contents s)

-- How much of the first packet is there.
within_first :
    (size tail_end head nbytes : ℕ) (p : Bytes) (ps : List Bytes)
    → Layout size tail_end (p ∷ ps)
    → nbytes < length (drop head (concat (p ∷ ps)))
    → head + nbytes < size
    → (nbytes ≤ (if is_empty ps then tail_end else size) - head) × (head + nbytes ≤ length p)
within_first size tail_end head nbytes p [] h l n =
    let c : length (p ++ []) ≡ length p = ap length (append-nil p) in
    (omega (arith, c, length-drop head (p ++ [])), omega (arith, c, length-drop head (p ++ [])))
within_first size tail_end head nbytes p (q ∷ ps) h l n = (omega arith, omega (arith, h.0))

pub dequeue_last-Taken :
    (s : PacketSeq) (ps : List Bytes) (nbytes : ℕ)
    → s.packets ≡ ps
    → SeqInv s
    → nbytes < length (contents s)
    → s.head_start + nbytes < s.packetsize
    → Holds (Taken nbytes s) (dequeue_last nbytes ps s)
unfolding dequeue_last
dequeue_last-Taken s [] nbytes e v h l =
    absurd (
      omega
        (arith, h, ap length (ap (λ x. drop s.head_start (concat x)) e ∙ drop_nil s.head_start)))
dequeue_last-Taken s (p ∷ ps) nbytes e v h l =
    let c : contents s ≡ drop s.head_start (concat (p ∷ ps)) =
      ap (λ x. drop s.head_start (concat x)) e in
    let w =
      within_first s.packetsize s.tail_end s.head_start nbytes p ps (rw e at v.layout)
        (omega (arith, h, ap length c)) l in
    let fits : leb nbytes ((if is_empty ps then s.tail_end else s.packetsize) - s.head_start)
        ≡ true =
      ground (arith, w.0) in
    let stays : (is_empty ps && s.head_start + nbytes == s.packetsize) ≡ false = ground arith in
    rw fits (
      rw stays (record {
        inv = advance-SeqInv s p ps nbytes e v w.1 l;
        rest = sym (drop_plus s.head_start nbytes (concat s.packets));
      }))

zero_of : (n : ℕ) → (n == 0) ≡ true → n ≡ 0
zero_of n h = ground arith

pub then_last-Taken :
    (s : PacketSeq) (nbytes : ℕ) (r : PacketSeq × ℕ)
    → Stopped s nbytes r
    → Holds (Taken nbytes s) (then_last r)
then_last-Taken s nbytes r w =
    Post-if ⊥ (Taken nbytes s) (r.1 == 0) _ _
      (λ z. record {
        inv = w.inv;
        rest = ap (λ k. drop k (contents r.0)) (sym (zero_of r.1 z)) ∙ w.same;
      })
      (λ _.
        Post-weaken ⊥ (Taken r.1 r.0) (Taken nbytes s) (dequeue_last r.1 r.0.packets r.0)
          (λ s' t. record { inv = t.inv; rest = t.rest ∙ w.same })
          (dequeue_last-Taken r.0 r.0.packets r.1 refl w.inv w.left
            (omega (arith, w.less, w.at_head))))
