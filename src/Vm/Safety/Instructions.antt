-- ===== src/Vm/Safety/Instructions.antt =====
-- The preservation lemmas for the `execute...` methods of src/vm/VM.cpp.
pub mod Stack
pub mod Memory
pub mod Control
pub mod Values
