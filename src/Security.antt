-- ===== src/Security.antt =====
-- crates/rnmdb-security: who may do what, and the chain of audit records.
pub mod Access
pub mod Audit
pub mod Envelope
mod Tests
