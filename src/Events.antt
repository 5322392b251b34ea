-- ===== src/Events.antt =====
-- The event loop of libhfp/events-indep.cpp, which runs timers and sockets: the timers are a pairing heap.
pub mod Timers
pub mod Weights
pub mod Pairing
pub mod Heap
pub mod Roots
pub mod Expire
pub mod Dispatch
pub mod RunOnce
pub mod Invariant
pub mod Handlers
pub mod RunList
pub mod Fires
pub mod Loop
pub mod Sleep
pub mod Calls
pub mod Early
