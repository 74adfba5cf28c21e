-- ===== src/Executor/Vector.antt =====
-- crates/rnmdb-executor/src/vector.rs: columns, rows and batches.
use rnov_modular_db.Base.{
  Bool, true, false, not, ◌&&◌, ◌||◌, Option, none, List, [], ◌∷◌, map, if◌then◌else◌, ◌==◌, length,
  is_empty,
}
use rnov_modular_db.Common.{Result, ok, err, invalid_input, reject_if, ◌>>◌}
use rnov_modular_db.Sql.Token.{Text, equal_text, to_lower}
use rnov_modular_db.Executor.Values.{SqlValues}

pub record ColumnSchema (V : SqlValues) : Type 0 where
  pub name : Text
  pub data_type : V.sql_type
  pub nullable : Bool
  pub encrypted : Bool
  pub generated : Option V.generated_column

-- `ColumnSchema::new`, `not_null`, `encrypted` and `with_encrypted`
abbrev pub column_new : {V : SqlValues} → Text → V.sql_type → ColumnSchema V
column_new name data_type = record {
  name = name;
  data_type = data_type;
  nullable = true;
  encrypted = false;
  generated = none;
}

abbrev pub not_null : {V : SqlValues} → ColumnSchema V → ColumnSchema V
not_null column = record column { nullable = false }

abbrev pub with_encrypted : {V : SqlValues} → ColumnSchema V → Bool → ColumnSchema V
with_encrypted column flag = record column { encrypted = flag }

pub record Row (V : SqlValues) : Type 0 where
  pub values : List V.value

-- the equality of the lists of values
unfoldable pub equal_lists : (V : SqlValues) → List V.value → List V.value → Bool
equal_lists V [] [] = true
equal_lists V (a ∷ xs) (b ∷ ys) = V.equal_values a b && equal_lists V xs ys
equal_lists V _ _ = false

-- the equality that `Row` derives
abbrev pub equal_rows : {V : SqlValues} → Row V → Row V → Bool
equal_rows {V} r s = equal_lists V r.values s.values

pub record VectorBatch (V : SqlValues) : Type 0 where
  pub columns : List (ColumnSchema V)
  pub rows : List (Row V)

-- `HashSet::contains`, on the names put into the set
unfoldable pub has_name : Text → List Text → Bool
has_name name [] = false
has_name name (seen ∷ more) = equal_text name seen || has_name name more

-- the loop of `validate_columns`, with the names seen so far in lower case
unfoldable pub validate_names :
    {V : SqlValues} → List Text → List (ColumnSchema V) → Result (Unit {0})
unfolding has_name
validate_names seen [] = ok tt
validate_names seen (column ∷ columns) =
    let name = map to_lower column.name in
    let more = validate_names (name ∷ seen) columns in
    if is_empty column.name
    then err invalid_input
    else if has_name name seen
    then err invalid_input
    else more

unfoldable pub validate_columns : {V : SqlValues} → List (ColumnSchema V) → Result (Unit {0})
unfolding validate_names
validate_columns columns = reject_if (is_empty columns) invalid_input >> validate_names [] columns

abbrev pub encrypted_storage_value_matches : {V : SqlValues} → ColumnSchema V → V.value → Bool
encrypted_storage_value_matches {V} column value = column.encrypted && V.is_bytes value

-- the loop of `validate_row_against_columns`
unfoldable pub validate_values :
    {V : SqlValues} → List (ColumnSchema V) → List V.value → Result (Unit {0})
validate_values [] values = ok tt
validate_values (column ∷ columns) [] = ok tt
validate_values {V} (column ∷ columns) (value ∷ values) =
    let more = validate_values columns values in
    if V.is_null value
    then reject_if (not column.nullable) invalid_input >> more
    else reject_if
        (not (V.equal_types (V.data_type value) column.data_type)
          && not (encrypted_storage_value_matches column value))
        invalid_input
      >> more

unfoldable pub validate_row_against_columns :
    {V : SqlValues} → List (ColumnSchema V) → Row V → Result (Unit {0})
unfolding validate_values
validate_row_against_columns columns row =
    reject_if (not (length row.values == length columns)) invalid_input
    >> validate_values columns row.values

-- the loop of `VectorBatch::new`
unfoldable pub validate_rows :
    {V : SqlValues} → List (ColumnSchema V) → List (Row V) → Result (Unit {0})
unfolding validate_row_against_columns
validate_rows columns [] = ok tt
validate_rows columns (row ∷ rows) =
    validate_row_against_columns columns row >> validate_rows columns rows

-- `VectorBatch::new`
unfoldable pub batch_new :
    {V : SqlValues} → List (ColumnSchema V) → List (Row V) → Result (VectorBatch V)
unfolding validate_columns validate_rows
batch_new columns rows =
    validate_columns columns
    >> validate_rows columns rows
    >> ok (record { columns = columns; rows = rows })
