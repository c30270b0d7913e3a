-- ===== src/Vm/Arithmetic.antt =====
-- src/vm/ArithmeticOps.cpp: the arithmetic, bitwise, shift and comparison instructions on values. The
-- first argument of each is the value that was pushed first.
pub mod Numeric
pub mod Bitwise
pub mod Compare
pub mod Integers
pub mod Order
pub mod Complement
