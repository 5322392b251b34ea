-- ===== src/Tests.antt =====
-- Runs of the code at concrete inputs, and the theorems at concrete inputs at which their hypotheses
-- hold.
mod Fields
mod Calls
mod Sessions
mod Readers
mod Settings
mod Packets
mod Files
mod Loops
mod Links
