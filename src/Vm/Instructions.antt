-- ===== src/Vm/Instructions.antt =====
-- src/vm/VM.cpp: the `execute...` methods, one for each instruction.
pub mod Stack
pub mod Memory
pub mod Control
pub mod Arithmetic
pub mod Other
