-- ===== src/Binary.antt =====
-- include/SKL/ABIX/Binary.
pub mod Reader
pub mod Image
pub mod Elf
pub mod Macho
pub mod Pe
pub mod Container
