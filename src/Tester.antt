-- ===== src/Tester.antt =====
-- raft/src: the testers of Raft and of the key-value server over it. Raft itself is unfinished, and is
-- a parameter: what its nodes answer is an argument.
pub mod Storage
pub mod Persister
pub mod Config
pub mod Kv
pub mod Checks
pub mod Leaders
