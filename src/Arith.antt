-- ===== src/Arith.antt =====
-- Arithmetic, src/arithmetic.cc.
pub mod Integer
pub mod Number
pub mod Operators
pub mod Evaluate
pub mod Escapes
pub mod Exact
pub mod Division
pub mod Reference
pub mod Errors
pub mod Defects
