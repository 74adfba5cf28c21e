-- ===== src/Executor/SetOps.antt =====
-- crates/rnmdb-executor/src/memory/set_ops.rs: DISTINCT, UNION, INTERSECT and EXCEPT on batches.
-- A HashSet of rows is the list of the rows put into it, a HashMap of counts the list of its
-- entries; both are asked by the equality of rows alone.
pub mod Rows
pub mod Yields
pub mod Loops
pub mod Batches
pub mod Each
pub mod Laws
use rnov_modular_db.Base.{
  ℕ, zero, suc, ◌+◌, ◌-◌, Bool, true, false, not, ◌&&◌, ◌||◌, Option, none, some, List, [], ◌∷◌,
  ◌++◌, if◌then◌else◌, ◌==◌, length,
}
use rnov_modular_db.Common.{Result, ok, err, invalid_input, reject_if, ◌>>=◌, ◌>>◌}
use rnov_modular_db.Executor.Values.{SqlValues}
use rnov_modular_db.Executor.Vector.{
  ColumnSchema, Row, equal_lists, equal_rows, VectorBatch, batch_new,
}
use rnov_modular_db.Executor.Cancellation.{CancellationToken, check}

-- `HashSet::contains`
unfoldable pub contains : {V : SqlValues} → Row V → List (Row V) → Bool
unfolding equal_lists
contains row [] = false
contains row (r ∷ rows) = equal_rows row r || contains row rows

-- rows read so far, and the token that is left
abbrev pub Read : SqlValues → Type 0
Read V = List (Row V) × CancellationToken

-- `rows.push(row)` before what the rest of a loop returns
abbrev pub push_row : {V : SqlValues} → Row V → Result (Read V) → Result (Read V)
push_row row rest = rest >>= (λ r. ok (row ∷ r.0, r.1))

-- the loop of `apply_distinct_cancellable`
unfoldable pub distinct_rows :
    {V : SqlValues} → List (Row V) → List (Row V) → CancellationToken → Result (Read V)
unfolding contains
distinct_rows seen [] token = ok ([], token)
distinct_rows seen (row ∷ rows) token = do
  left ← check token
  elim (contains row seen) [
    | true ↦ distinct_rows seen rows left
    | false ↦ push_row row (distinct_rows (row ∷ seen) rows left)
  ]

-- the check and the batch at the end of every operation
abbrev pub finish_batch :
    {V : SqlValues}
    → List (ColumnSchema V)
    → Result (Read V)
    → Result (VectorBatch V × CancellationToken)
finish_batch columns read = do
  r ← read
  left ← check r.1
  batch ← batch_new columns r.0
  ok (batch, left)

-- `apply_distinct_cancellable`
unfoldable pub apply_distinct :
    {V : SqlValues} → VectorBatch V → CancellationToken → Result (VectorBatch V × CancellationToken)
unfolding distinct_rows batch_new
apply_distinct batch token = finish_batch batch.columns (distinct_rows [] batch.rows token)

-- the loop of `validate_set_operation_columns`
unfoldable pub validate_types :
    {V : SqlValues} → List (ColumnSchema V) → List (ColumnSchema V) → Result (Unit {0})
validate_types [] rights = ok tt
validate_types (l ∷ lefts) [] = ok tt
validate_types {V} (l ∷ lefts) (r ∷ rights) =
    reject_if (not (V.equal_types l.data_type r.data_type)) invalid_input
    >> validate_types lefts rights

-- `validate_set_operation_columns`
unfoldable pub validate_set_operation_columns :
    {V : SqlValues} → VectorBatch V → VectorBatch V → Result (Unit {0})
unfolding validate_types
validate_set_operation_columns left right =
    reject_if (not (length left.columns == length right.columns)) invalid_input
    >> validate_types left.columns right.columns

-- `append_rows`, on the rows that it appends
unfoldable pub append_rows : {V : SqlValues} → List (Row V) → CancellationToken → Result (Read V)
append_rows [] token = ok ([], token)
append_rows (row ∷ rows) token = do left ← check token; push_row row (append_rows rows left)

-- `combined_rows`
unfoldable pub combined_rows :
    {V : SqlValues} → List (Row V) → List (Row V) → CancellationToken → Result (Read V)
unfolding append_rows
combined_rows left right token = do
  l ← append_rows left token
  r ← append_rows right l.1
  last ← check r.1
  ok (l.0 ++ r.0, last)

-- `apply_union_cancellable`
unfoldable pub apply_union :
    {V : SqlValues}
    → VectorBatch V
    → VectorBatch V
    → Bool
    → CancellationToken
    → Result (VectorBatch V × CancellationToken)
unfolding validate_set_operation_columns combined_rows apply_distinct
apply_union left right all token = do
  _ ← validate_set_operation_columns left right
  rows ← combined_rows left.rows right.rows token
  batch ← batch_new left.columns rows.0
  elim all [ true ↦ ok (batch, rows.1) | false ↦ apply_distinct batch rows.1 ]

-- `row_set`: a check for each row, which joins the set
unfoldable pub row_set :
    {V : SqlValues} → List (Row V) → List (Row V) → CancellationToken → Result (Read V)
row_set set [] token = ok (set, token)
row_set set (row ∷ rows) token = do left ← check token; row_set (row ∷ set) rows left

-- `a == b` on Boolean values
abbrev pub same_bool : Bool → Bool → Bool
same_bool true b = b
same_bool false b = not b

-- the loop of `distinct_rows_by_right_membership`
unfoldable pub matching_rows :
    {V : SqlValues}
    → List (Row V)
    → Bool
    → List (Row V)
    → List (Row V)
    → CancellationToken
    → Result (Read V)
unfolding contains
matching_rows right keep emitted [] token = ok ([], token)
matching_rows right keep emitted (row ∷ rows) token = do
  left ← check token
  elim (same_bool (contains row right) keep && not (contains row emitted)) [
    | true ↦ push_row row (matching_rows right keep (row ∷ emitted) rows left)
    | false ↦ matching_rows right keep emitted rows left
  ]

-- `distinct_rows_by_right_membership`, before its last check
unfoldable pub distinct_rows_by_right_membership :
    {V : SqlValues} → List (Row V) → VectorBatch V → Bool → CancellationToken → Result (Read V)
unfolding row_set matching_rows
distinct_rows_by_right_membership left right keep token = do
  set ← row_set [] right.rows token
  matching_rows set.0 keep [] left set.1

-- a `HashMap<Row, usize>`
abbrev pub RowCounts : SqlValues → Type 0
RowCounts V = List (Row V × ℕ)

-- `*counts.entry(row).or_insert(0) += 1`
unfoldable pub count_row : {V : SqlValues} → Row V → RowCounts V → RowCounts V
unfolding equal_lists
count_row row [] = (row, 1) ∷ []
count_row row ((r, n) ∷ counts) =
    let more = count_row row counts in
    if equal_rows row r then (r, n + 1) ∷ counts else (r, n) ∷ more

-- `row_counts`
unfoldable pub row_counts :
    {V : SqlValues}
    → RowCounts V
    → List (Row V)
    → CancellationToken
    → Result (RowCounts V × CancellationToken)
unfolding count_row
row_counts counts [] token = ok (counts, token)
row_counts counts (row ∷ rows) token = do
  left ← check token
  row_counts (count_row row counts) rows left

-- `match right_counts.get_mut(row) { Some(count) if *count > 0 => *count -= 1, ... }`: the counts
-- after the first arm, none for the other
unfoldable pub take_row : {V : SqlValues} → Row V → RowCounts V → Option (RowCounts V)
unfolding equal_lists
take_row row [] = none
take_row row ((r, n) ∷ counts) = elim (equal_rows row r) [
  | true ↦ if n == 0 then none else some ((r, n - 1) ∷ counts)
  | false ↦ elim (take_row row counts) [ none ↦ none | some more ↦ some ((r, n) ∷ more) ]
]

-- the loop of `apply_intersect_all_cancellable`
unfoldable pub intersect_all_rows :
    {V : SqlValues} → RowCounts V → List (Row V) → CancellationToken → Result (Read V)
unfolding take_row
intersect_all_rows counts [] token = ok ([], token)
intersect_all_rows counts (row ∷ rows) token = do
  left ← check token
  elim (take_row row counts) [
    | some fewer ↦ push_row row (intersect_all_rows fewer rows left)
    | none ↦ intersect_all_rows counts rows left
  ]

-- the loop of `apply_except_all_cancellable`
unfoldable pub except_all_rows :
    {V : SqlValues} → RowCounts V → List (Row V) → CancellationToken → Result (Read V)
unfolding take_row
except_all_rows counts [] token = ok ([], token)
except_all_rows counts (row ∷ rows) token = do
  left ← check token
  elim (take_row row counts) [
    | some fewer ↦ except_all_rows fewer rows left
    | none ↦ push_row row (except_all_rows counts rows left)
  ]

-- `apply_intersect_cancellable` and `apply_intersect_all_cancellable`
unfoldable pub apply_intersect :
    {V : SqlValues}
    → VectorBatch V
    → VectorBatch V
    → Bool
    → CancellationToken
    → Result (VectorBatch V × CancellationToken)
unfolding validate_set_operation_columns row_counts intersect_all_rows
    distinct_rows_by_right_membership batch_new
apply_intersect left right all token = do
  _ ← validate_set_operation_columns left right
  finish_batch left.columns (elim all [
    | true ↦ row_counts [] right.rows token >>= (λ c. intersect_all_rows c.0 left.rows c.1)
    | false ↦ distinct_rows_by_right_membership left.rows right true token
  ])

-- `apply_except_cancellable` and `apply_except_all_cancellable`
unfoldable pub apply_except :
    {V : SqlValues}
    → VectorBatch V
    → VectorBatch V
    → Bool
    → CancellationToken
    → Result (VectorBatch V × CancellationToken)
unfolding validate_set_operation_columns row_counts except_all_rows
    distinct_rows_by_right_membership batch_new
apply_except left right all token = do
  _ ← validate_set_operation_columns left right
  finish_batch left.columns (elim all [
    | true ↦ row_counts [] right.rows token >>= (λ c. except_all_rows c.0 left.rows c.1)
    | false ↦ distinct_rows_by_right_membership left.rows right false token
  ])
