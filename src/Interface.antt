-- ===== src/Interface.antt =====
-- include/SKL/ABIX/Interface.
pub mod Contract
pub mod Registry
pub mod Ref
pub mod Module
pub mod Lease
pub mod ModuleRegistry
