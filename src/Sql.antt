-- ===== src/Sql.antt =====
-- crates/rnmdb-sql/src/lexer.rs: the lexer of SQL.
pub mod Token
pub mod Bytes
pub mod Lexer
mod Tests
