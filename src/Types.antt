-- ===== src/Types.antt =====
-- crates/rnmdb-types: the values of SQL.
pub mod Float64
