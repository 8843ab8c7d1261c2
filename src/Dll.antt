-- ===== src/Dll.antt =====
-- include/SKL/ABIX/DLL.
pub mod RefPtr
pub mod Object
