-- ===== src/Index.antt =====
-- crates/rnmdb-index: the in-memory access paths.
pub mod Key
pub mod Entries
pub mod BTree
pub mod Hash
pub mod Composite
pub mod Summary
pub mod Bounds
mod Tests
