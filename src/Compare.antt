-- ===== src/Compare.antt =====
-- The standard order of terms, src/compare.cc.
pub mod Term
pub mod Order
pub mod Swap
pub mod Laws
