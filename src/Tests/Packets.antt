-- ===== src/Tests/Packets.antt =====
-- Examples for the packet queue of include/libhfp/soundio-buf.h.
use nohands.Prelude.{◌≡◌, refl, [], ◌∷◌, ◌++◌, take, arith}
use nohands.Faults.{assertion, fault, ◌>>=◌}
use nohands.Faults.Post.{Holds}
use nohands.Sound.Packets.{PacketSeq, put_unfilled, get_unfilled, dequeue, peek}
use nohands.Sound.Contents.{SeqInv, contents, put_unfilled-appends}
use nohands.Sound.Dequeue.{dequeue-Taken}
use nohands.Sound.Fifo.{Taken}
use nohands.Sound.Stale.{stale_tail}

-- One sample has been taken from the first packet, and the second has room for one.
abbrev partial : PacketSeq
partial = record {
  bpr = 2;
  packetsize = 4;
  nfree = 0;
  packets = (1 ∷ 2 ∷ 3 ∷ 4 ∷ []) ∷ (5 ∷ 6 ∷ []) ∷ [];
  head_start = 2;
  tail_end = 2;
}

partial-SeqInv : SeqInv partial
partial-SeqInv = record {
  layout = (refl, refl);
  size_pos = omega arith;
  tail_fits = omega arith;
  head_fits = omega arith;
  head_less = omega arith;
}

put_unfilled-appends_example :
    Holds
      (λ s. (contents s ≡ contents partial ++ take 2 (7 ∷ 8 ∷ [])) × SeqInv s)
      (put_unfilled 1 (7 ∷ 8 ∷ []) partial)
put_unfilled-appends_example =
    put_unfilled-appends 1 (7 ∷ 8 ∷ []) partial partial-SeqInv (λ e. cc) (omega arith) (omega arith)

dequeue-Taken_example : Holds (Taken 2 partial) (dequeue 1 partial)
dequeue-Taken_example = dequeue-Taken 1 partial partial-SeqInv (omega arith)

peek_run : peek 0 partial ≡ 3 ∷ 4 ∷ []
unfolding peek
peek_run = refl

abbrev full : PacketSeq
full = record partial {
  packets = (1 ∷ 2 ∷ 3 ∷ 4 ∷ []) ∷ (5 ∷ 6 ∷ 7 ∷ 8 ∷ []) ∷ [];
  head_start = 0;
  tail_end = 4;
}

stale_tail_example : (dequeue 4 full >>= get_unfilled 1) ≡ fault assertion
stale_tail_example =
    stale_tail (1 ∷ 2 ∷ 3 ∷ 4 ∷ []) (5 ∷ 6 ∷ 7 ∷ 8 ∷ []) 4 1 full refl refl refl (omega arith) refl
