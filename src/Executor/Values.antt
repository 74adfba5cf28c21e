-- ===== src/Executor/Values.antt =====
-- What crates/rnmdb-executor/src/vector.rs takes from rnmdb-types and rnmdb-sql: values with the
-- equality that they derive, their types, and the form of generated columns.
use rnov_modular_db.Base.{◌≡◌, ◌↔◌, Bool, true}

pub record SqlValues : Type 1 where
  pub value : Type 0
  pub sql_type : Type 0
  pub generated_column : Type 0
  -- `==` on values and on types
  pub equal_values : value → value → Bool
  pub equal_types : sql_type → sql_type → Bool
  pub equal_values_iff : (a b : value) → (equal_values a b ≡ true) ↔ (a ≡ b)
  -- `SqlValue::is_null`, `SqlValue::data_type` and `matches!(value, SqlValue::Bytes(_))`
  pub is_null : value → Bool
  pub data_type : value → sql_type
  pub is_bytes : value → Bool
