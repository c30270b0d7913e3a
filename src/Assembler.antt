-- ===== src/Assembler.antt =====
-- src/assembler: from statements to bytecode, one module for each part.
pub mod Defs
pub mod Numbers
pub mod Labels
pub mod Layout
pub mod Encode
pub mod Bytecode
pub mod Yields
pub mod Sizes
pub mod FirstPass
pub mod SecondPass
pub mod Emission
pub mod Header
pub mod Decoded
pub mod Entries
pub mod Written
pub mod Assembled
pub mod Plain
pub mod Resolve
pub mod Targets
pub mod Jumps
pub mod Passes
pub mod Operands
pub mod DatumSize
