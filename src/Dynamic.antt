-- ===== src/Dynamic.antt =====
-- Dynamic predicates, src/dynamic_code.h, src/dynamic_code.cc and src/dyn_code.cc.
pub mod Key
pub mod Chain
pub mod Predicate
pub mod Represents
pub mod Views
mod Entries
pub mod Upkeep
pub mod Live
pub mod Runs
pub mod Database
pub mod Defects
