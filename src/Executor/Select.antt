-- ===== src/Executor/Select.antt =====
-- crates/rnmdb-executor/src/vector.rs: `VectorBatch::project` and `VectorBatch::filter_eq`. The
-- answer `none` is the panic of an index out of range.
pub mod Laws
pub mod Projection
use rnov_modular_db.Base.{ℕ, zero, suc, Bool, Option, none, some, List, [], ◌∷◌, map, if◌then◌else◌}
use rnov_modular_db.Base.Partial.{◌>>=◌}
use rnov_modular_db.Common.{Result, ok, err, not_found}
use rnov_modular_db.Sql.Token.{Text, equal_text, to_lower}
use rnov_modular_db.Executor.Values.{SqlValues}
use rnov_modular_db.Executor.Vector.{ColumnSchema, Row, VectorBatch, batch_new}

-- `slice::get`
unfoldable pub get_elem? : {A : Type 0} → List A → ℕ → Option A
get_elem? [] n = none
get_elem? (x ∷ xs) zero = some x
get_elem? (x ∷ xs) (suc n) = get_elem? xs n

-- `str::eq_ignore_ascii_case`
abbrev pub eq_ignore_ascii_case : Text → Text → Bool
eq_ignore_ascii_case a b = equal_text (map to_lower a) (map to_lower b)

-- the search of `column_index`, from an index on
unfoldable pub find_column : {V : SqlValues} → Text → ℕ → List (ColumnSchema V) → Result ℕ
find_column name i [] = err not_found
find_column name i (column ∷ columns) =
    let later = find_column name (suc i) columns in
    if eq_ignore_ascii_case column.name name then ok i else later

-- `VectorBatch::column_index`
abbrev pub column_index : {V : SqlValues} → Text → VectorBatch V → Result ℕ
column_index name batch = find_column name 0 batch.columns

-- the filter of `filter_eq` on the rows
unfoldable pub rows_equal_at : {V : SqlValues} → ℕ → V.value → List (Row V) → Option (List (Row V))
unfolding get_elem?
rows_equal_at i expected [] = some []
rows_equal_at {V} i expected (row ∷ rows) = do
  value ← get_elem? row.values i
  rest ← rows_equal_at i expected rows
  some (if V.equal_values value expected then row ∷ rest else rest)

-- the end of `filter_eq`, after the index is found
unfoldable pub filter_at :
    {V : SqlValues} → VectorBatch V → V.value → ℕ → Option (Result (VectorBatch V))
unfolding rows_equal_at batch_new
filter_at batch expected i = do
  rows ← rows_equal_at i expected batch.rows
  some (batch_new batch.columns rows)

unfoldable pub filter_eq :
    {V : SqlValues} → Text → V.value → VectorBatch V → Option (Result (VectorBatch V))
unfolding find_column filter_at
filter_eq name expected batch = elim (column_index name batch) [
  | err e ↦ some (err e)
  | ok i ↦ filter_at batch expected i
]

-- `Row::project`
unfoldable pub row_project : {V : SqlValues} → Row V → List ℕ → Option (Row V)
unfolding get_elem?
row_project row [] = some (record { values = [] })
row_project row (i ∷ indexes) = do
  value ← get_elem? row.values i
  rest ← row_project row indexes
  some (record { values = value ∷ rest.values })

unfoldable pub project_rows : {V : SqlValues} → List ℕ → List (Row V) → Option (List (Row V))
unfolding row_project
project_rows indexes [] = some []
project_rows indexes (row ∷ rows) = do
  projected ← row_project row indexes
  rest ← project_rows indexes rows
  some (projected ∷ rest)

-- `indexes.push(index); columns.push(..)` before the rest of the loop
abbrev pub push_column :
    {V : SqlValues}
    → ℕ
    → ColumnSchema V
    → Result (List ℕ × List (ColumnSchema V))
    → Result (List ℕ × List (ColumnSchema V))
push_column i column (err e) = err e
push_column i column (ok (indexes, columns)) = ok (i ∷ indexes, column ∷ columns)

-- the loop of `VectorBatch::project`: the indexes and the columns of the names
unfoldable pub project_columns :
    {V : SqlValues} → List Text → VectorBatch V → Option (Result (List ℕ × List (ColumnSchema V)))
unfolding find_column get_elem?
project_columns [] batch = some (ok ([], []))
project_columns (name ∷ names) batch =
    let more = project_columns names batch in
    elim (column_index name batch) [
      | err e ↦ some (err e)
      | ok i ↦ do column ← get_elem? batch.columns i; rest ← more; some (push_column i column rest)
    ]

-- the end of `project`
unfoldable pub project_at :
    {V : SqlValues}
    → VectorBatch V
    → Result (List ℕ × List (ColumnSchema V))
    → Option (Result (VectorBatch V))
unfolding project_rows batch_new
project_at batch (err e) = some (err e)
project_at batch (ok (indexes, columns)) = do
  rows ← project_rows indexes batch.rows
  some (batch_new columns rows)

unfoldable pub project :
    {V : SqlValues} → List Text → VectorBatch V → Option (Result (VectorBatch V))
unfolding project_columns project_at
project names batch = do found ← project_columns names batch; project_at batch found
