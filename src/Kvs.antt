-- ===== src/Kvs.antt =====
-- project_5: the key-value store over log files, with its server and client.
pub mod Log
pub mod Load
pub mod Errors
pub mod Reader
pub mod Writer
pub mod Store
pub mod Engine
pub mod Server
pub mod Client
pub mod Main
pub mod Pool
mod Sample
mod Tests
mod ServerTests
