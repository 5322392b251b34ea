-- ===== src/Sound/Stale.antt =====
-- `Dequeue` of include/libhfp/soundio-buf.h leaves the end of the last packet behind when its loop
-- takes that packet.
use nohands.Prelude.{ℕ, ◌+◌, ◌*◌, ◌<◌, ◌≡◌, [], ◌∷◌, arith}
use nohands.Text.{Bytes}
use nohands.Faults.{assertion, fault, ◌>>=◌}
use nohands.Sound.Packets.{
  PacketSeq, put_buffer, drop_first, dequeue_loop, dequeue_many, dequeue_in, dequeue, open_tail,
  get_unfilled,
}

-- Of a queue of two packets whose last one is full, and from which nothing has been taken, as many
-- samples as fill two packets are taken: the end of the tail is not reset, and the next
-- GetUnfilled fails its assertion.
pub stale_tail :
    (p q : Bytes) (nsamples wanted : ℕ) (s : PacketSeq)
    → s.packets ≡ p ∷ q ∷ []
    → s.head_start ≡ 0
    → s.tail_end ≡ s.packetsize
    → 0 < s.packetsize
    → nsamples * s.bpr ≡ s.packetsize + s.packetsize
    → (dequeue nsamples s >>= get_unfilled wanted) ≡ fault assertion
unfolding dequeue dequeue_in dequeue_many dequeue_loop drop_first put_buffer get_unfilled open_tail
stale_tail p q nsamples wanted s e z t l n = rw e (ground arith)
