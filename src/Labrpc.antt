-- ===== src/Labrpc.antt =====
-- crates/labrpc: a simulated network of clients and servers.
pub mod Network
pub mod Service
pub mod Calls
mod Tests
