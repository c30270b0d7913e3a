-- ===== src/Compiler.antt =====
-- src/compiler: the constant folder on the syntax trees of the compiler, and the table of functions.
pub mod Ast
pub mod Constants
pub mod Operators
pub mod Folder
pub mod Statements
pub mod Gives
pub mod Meaning
pub mod Agreement
pub mod Evaluation
pub mod Sound
pub mod SoundBinary
pub mod Preserved
pub mod Functions
pub mod Signatures
pub mod Tokeniser
