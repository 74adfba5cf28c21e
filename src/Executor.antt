-- ===== src/Executor.antt =====
-- crates/rnmdb-executor: batches of rows and the set operations on them.
pub mod Values
pub mod Vector
pub mod Cancellation
pub mod SetOps
pub mod Select
mod Tests
