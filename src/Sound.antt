-- ===== src/Sound.antt =====
-- The sound input and output of libhfp.
pub mod Packets
pub mod Contents
pub mod Fifo
pub mod Dequeue
pub mod Fill
pub mod Stale
