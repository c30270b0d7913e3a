-- ===== src/Vm.antt =====
-- src/vm: the virtual machine, one module for each class.
pub mod State
pub mod Float
pub mod Values
pub mod Arithmetic
pub mod OperandStack
pub mod CallStack
pub mod HeapManager
pub mod Native
pub mod Fetch
pub mod Instructions
pub mod Run
pub mod ErrorHandler
pub mod FileHeader
pub mod Metadata
pub mod Start
pub mod Safety
pub mod Memory
