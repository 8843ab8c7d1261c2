-- ===== src/Model.antt =====
-- include/SKL/ABIX/Model.
pub mod Abi
pub mod Compat
pub mod Map
pub mod Bootstrap
