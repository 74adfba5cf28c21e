-- ===== src/Instance.antt =====
-- crates/rnmdb-instance: the instances of one process, what each may use, and the channels by which
-- they hand data over.
pub mod Limits
pub mod Isolation
pub mod Switch
pub mod Manager
mod Tests
