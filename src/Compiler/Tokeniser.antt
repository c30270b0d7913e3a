-- ===== src/Compiler/Tokeniser.antt =====
-- src/compiler/Tokeniser.cpp: from source texts to tokens.
pub mod Tokens
pub mod Characters
pub mod Symbols
pub mod Words
pub mod Reader
pub mod Buffer
pub mod Blanks
pub mod Longest
pub mod Munch
pub mod Outcomes
mod Passing
mod Consumed
mod Cases
pub mod Located
pub mod Stream
pub mod Buffered
