-- ===== src/Txn.antt =====
-- crates/rnmdb-txn: locks with deadlock detection, row versions, and the transaction manager.
pub mod Locks
pub mod Snapshot
pub mod Versions
pub mod Manager
