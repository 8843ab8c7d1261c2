-- ===== src/Metadata.antt =====
-- include/SKL/ABIX/Metadata.
pub mod Descriptor
pub mod Registry
