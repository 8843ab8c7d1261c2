-- ===== src/Runtime.antt =====
-- include/SKL/ABIX/Runtime.
pub mod Registry
pub mod Search
