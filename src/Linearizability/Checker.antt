-- ===== src/Linearizability/Checker.antt =====
-- The checker of crates/linearizability from end to end: what it promises of a list of entries, and
-- that `from_entries` and `check_single` keep the promise.
pub mod Spec
pub mod Shows
pub mod Transfer
pub mod Total
pub mod Kill
pub mod Realtime
pub mod Timed
pub mod Orders
pub mod Agrees
