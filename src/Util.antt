-- ===== src/Util.antt =====
-- include/SKL/ABIX/Util.
pub mod Hash
