-- ===== src/Rcu.antt =====
-- include/SKL/ABIX/RCU.
pub mod Domain
pub mod Steps
pub mod Readers
pub mod Writers
pub mod Advance
pub mod Collector
pub mod Ending
pub mod Safety
pub mod Progress
pub mod Owner
pub mod Ownership
pub mod Invariant
