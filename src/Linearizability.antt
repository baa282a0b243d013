-- ===== src/Linearizability.antt =====
-- crates/linearizability
pub mod Bitset
pub mod Checker
pub mod Entries
pub mod Model
pub mod Models
pub mod Nodes
pub mod Search
mod Tests
pub mod Threads
