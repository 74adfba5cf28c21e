-- ===== src/Storage.antt =====
-- crates/rnmdb-storage/src/lib.rs: pages and their codec, the backends in memory and in a single
-- file, and the hybrid backend.
pub mod Page
pub mod Memory
pub mod Disk
pub mod Status
pub mod SingleFile
pub mod Hybrid
pub mod Codec
mod Tests
