-- ===== src/Vm/Safety.antt =====
-- The invariant of the machine of src/vm and its preservation.
pub mod Within
pub mod Invariant
pub mod Memory
pub mod Frames
pub mod Heap
pub mod Primitives
pub mod Instructions
pub mod Dispatch
pub mod Program
