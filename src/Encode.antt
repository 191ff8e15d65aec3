-- ===== src/Encode.antt =====
-- The encoding of terms in bytes, src/encode.h and src/encode.cc.
pub mod Term
pub mod Map
pub mod Number
pub mod Write
pub mod Read
mod Words
mod Shrinks
pub mod Fuel
mod Keys
pub mod Images
mod Growth
mod Steps
mod KeyReads
mod Leaves
mod Nodes
mod Substitutions
pub mod Copy
pub mod RoundTrip
pub mod Success
pub mod Negative
