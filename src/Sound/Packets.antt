-- ===== src/Sound/Packets.antt =====
-- `PacketSeq` of include/libhfp/soundio-buf.h, the packet queue of the sound input and output. A packet
-- is the bytes that have been put into it; the number of packets is the length of the list. Sizes are
-- numbers that are not negative, and allocation succeeds.
use nohands.Prelude.{
  ℕ, suc, ◌+◌, ◌-◌, ◌*◌, ◌/◌, Bool, true, not, ◌&&◌, ◌||◌, List, [], ◌∷◌, ◌++◌, ◌==◌, ltb, leb,
  if◌then◌else◌, length, take, drop, is_empty,
}
use nohands.Text.{Bytes}
use nohands.Faults.{null_pointer, Result, ok, fault, ◌>>=◌, ◌>>◌, assert}

pub record PacketSeq : Type 0 where
  pub bpr : ℕ
  pub packetsize : ℕ
  pub nfree : ℕ
  pub packets : List Bytes
  pub head_start : ℕ
  pub tail_end : ℕ

-- `m_head == m_tail`
abbrev pub is_single : List Bytes → Bool
is_single [] = true
is_single (p ∷ ps) = is_empty ps

-- `GetBuffer`
unfoldable pub get_buffer : PacketSeq → Result PacketSeq
get_buffer s = do assert (not (s.packetsize == 0)); ok (record s { nfree = s.nfree - 1 })

-- `PutBuffer`; `c_free_buffer_retain` is 10.
unfoldable pub put_buffer : PacketSeq → PacketSeq
put_buffer s = if ltb 10 s.nfree then s else record s { nfree = suc s.nfree }

-- `TotalFill`
unfoldable pub total_fill : PacketSeq → Result ℕ
total_fill s = do
  assert (not (s.packetsize == 0))
  ok (
      if is_empty s.packets
      then 0
      else if is_single s.packets
      then (s.tail_end - s.head_start) / s.bpr
      else ((length s.packets - 2) * s.packetsize + s.tail_end + (s.packetsize - s.head_start))
        / s.bpr)

-- `nsamples` where 0 asks for all there is.
abbrev pub at_most : ℕ → ℕ → ℕ
at_most nsamples real = if nsamples == 0 || ltb real nsamples then real else nsamples

-- `GetUnfilled`: a packet with space at the tail, and how many samples it takes.
unfoldable pub open_tail : PacketSeq → Result PacketSeq
unfolding get_buffer
open_tail s =
    if is_empty s.packets
    then (assert (s.tail_end == 0)
        >> assert (s.head_start == 0)
        >> (get_buffer s >>= λ s'. ok (record s' { packets = [] ∷ [] })))
    else if s.tail_end == s.packetsize
    then (get_buffer s >>= λ s'. ok (record s' { packets = s'.packets ++ [] ∷ []; tail_end = 0 }))
    else ok s

unfoldable pub get_unfilled : ℕ → PacketSeq → Result (PacketSeq × ℕ)
unfolding open_tail
get_unfilled nsamples s =
    open_tail s >>= λ s'. ok (s', at_most nsamples ((s'.packetsize - s'.tail_end) / s'.bpr))

unfoldable pub append_last : Bytes → List Bytes → List Bytes
append_last bytes [] = []
append_last bytes (p ∷ []) = (p ++ bytes) ∷ []
append_last bytes (p ∷ q ∷ ps) = p ∷ append_last bytes (q ∷ ps)

-- `PutUnfilled`; `space` is what stands in the space that `GetUnfilled` has given.
unfoldable pub put_unfilled : ℕ → Bytes → PacketSeq → Result PacketSeq
unfolding append_last
put_unfilled nsamples space s = do
  let nbytes = nsamples * s.bpr
  assert (leb (nbytes + s.tail_end) s.packetsize)
  ok (record s {
    packets = append_last (take nbytes space) s.packets;
    tail_end = s.tail_end + nbytes;
  })

-- `Peek`: the samples that can be read at once.
unfoldable pub peek_in : ℕ → PacketSeq → List Bytes → Bytes
peek_in nsamples s [] = []
peek_in nsamples s (p ∷ ps) =
    let end = if is_empty ps then s.tail_end else s.packetsize in
    take (at_most nsamples ((end - s.head_start) / s.bpr) * s.bpr) (drop s.head_start p)

unfoldable pub peek : ℕ → PacketSeq → Bytes
unfolding peek_in
peek nsamples s = peek_in nsamples s s.packets

-- `PutBuffer(DequeueFirst())` of the first packet, with the packets behind it.
unfoldable pub drop_first : List Bytes → PacketSeq → Result PacketSeq
unfolding put_buffer
drop_first ps s = assert (s.head_start == 0) >> ok (put_buffer (record s { packets = ps }))

-- `while (nbytes >= m_packetsize)` of `Dequeue`; without a packet `PutBuffer` gets a null pointer.
unfoldable pub dequeue_loop : List Bytes → ℕ → PacketSeq → Result (PacketSeq × ℕ)
dequeue_loop [] nbytes s =
    if leb s.packetsize nbytes
    then (assert (s.tail_end == s.packetsize) >> fault null_pointer)
    else ok (s, nbytes)
dequeue_loop (p ∷ ps) nbytes s =
    if leb s.packetsize nbytes
    then (assert (not (is_empty ps) || s.tail_end == s.packetsize)
        >> (drop_first ps s >>= dequeue_loop ps (nbytes - s.packetsize)))
    else ok (s, nbytes)

-- The first packet, in which the rest of the bytes is.
unfoldable pub dequeue_last : ℕ → List Bytes → PacketSeq → Result PacketSeq
unfolding drop_first
dequeue_last nbytes [] s = assert (nbytes == 0) >> ok s
dequeue_last nbytes (p ∷ ps) s =
    assert (leb nbytes ((if is_empty ps then s.tail_end else s.packetsize) - s.head_start))
    >> (if is_empty ps && s.head_start + nbytes == s.packetsize
        then (assert (s.head_start + nbytes == s.tail_end)
            >> drop_first ps (record s { head_start = 0; tail_end = 0 }))
        else ok (record s { head_start = s.head_start + nbytes }))

abbrev pub then_last : PacketSeq × ℕ → Result PacketSeq
then_last r = if r.1 == 0 then ok r.0 else dequeue_last r.1 r.0.packets r.0

-- From the first packet, of several.
unfoldable pub dequeue_many : ℕ → Bytes → List Bytes → PacketSeq → Result PacketSeq
unfolding dequeue_loop dequeue_last drop_first
dequeue_many nbytes p ps s =
    if s.head_start == 0
    then (dequeue_loop (p ∷ ps) nbytes s >>= then_last)
    else if ltb nbytes (s.packetsize - s.head_start)
    then ok (record s { head_start = s.head_start + nbytes })
    else (drop_first ps (record s { head_start = 0 }) >>= λ s'.
        dequeue_loop ps (nbytes - (s.packetsize - s.head_start)) s' >>= then_last)

unfoldable pub dequeue_in : ℕ → ℕ → List Bytes → PacketSeq → Result PacketSeq
unfolding dequeue_many dequeue_last
dequeue_in nsamples nbytes [] s = assert (nsamples == 0) >> ok s
dequeue_in nsamples nbytes (p ∷ []) s = dequeue_last nbytes (p ∷ []) s
dequeue_in nsamples nbytes (p ∷ q ∷ ps) s = dequeue_many nbytes p (q ∷ ps) s

-- `Dequeue`
unfoldable pub dequeue : ℕ → PacketSeq → Result PacketSeq
unfolding dequeue_in
dequeue nsamples s = dequeue_in nsamples (nsamples * s.bpr) s.packets s

-- `SetPacketSize`, with `Clear` and `CollectBuffers`.
unfoldable pub set_packet_size : ℕ → ℕ → PacketSeq → PacketSeq
set_packet_size packetsize bps s = record {
  bpr = bps;
  packetsize = packetsize * bps;
  nfree = 0;
  packets = [];
  head_start = 0;
  tail_end = 0;
}
