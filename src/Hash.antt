-- ===== src/Hash.antt =====
-- The hash tables of src/dynamic_hash_table.h.
pub mod Table
pub mod Probe
pub mod Insert
mod Surjective
mod Triangular
pub mod Coverage
pub mod Count
pub mod Room
pub mod Total
pub mod Invariant
