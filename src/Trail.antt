-- ===== src/Trail.antt =====
-- The trails of the abstract machine, src/trail.h.
pub mod Entry
pub mod Other
pub mod Binding
pub mod Undo
pub mod Tidy
pub mod Cut
pub mod Reset
