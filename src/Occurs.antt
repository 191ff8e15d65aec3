-- ===== src/Occurs.antt =====
-- The occurs check, src/occurs_check.cc and src/truth3.h.
pub mod Truth
pub mod Check
pub mod Laws
pub mod Logic
