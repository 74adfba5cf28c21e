-- ===== src/Executor/SetOps/Batches.antt =====
-- crates/rnmdb-executor/src/vector.rs: when the rows that an operation returns make a batch.
use rnov_modular_db.Base.{◌<◌, ◌≡◌, refl, List, [], ◌∷◌, arith, inl, inr, Bool-cases}
use rnov_modular_db.Common.{Result, ok, err, ◌>>◌}
use rnov_modular_db.Executor.Values.{SqlValues}
use rnov_modular_db.Executor.Vector.{
  ColumnSchema, Row, equal_rows, VectorBatch, validate_columns, validate_row_against_columns,
  validate_rows, batch_new,
}
use rnov_modular_db.Executor.Cancellation.{CancellationToken}
use rnov_modular_db.Executor.SetOps.{finish_batch}
use rnov_modular_db.Executor.SetOps.Rows.{copies, equal_rows-eq, equal_rows_self}
use rnov_modular_db.Executor.SetOps.Yields.{Yields, ok-Yields, check-Yields, bind-Yields}

pub then_ok : (a b : Result (Unit {0})) → (a >> b) ≡ ok tt → (a ≡ ok tt) × (b ≡ ok tt)
then_ok (ok _) b h = (refl, h)
then_ok (err e) b h = ground arith

module _ {V : SqlValues} where
  -- `VectorBatch::new` made the batch.
  abbrev pub IsBatch : VectorBatch V → Type 0
  IsBatch batch =
      (validate_columns batch.columns ≡ ok tt) × (validate_rows batch.columns batch.rows ≡ ok tt)

  -- Every row of the list fits the columns.
  abbrev pub AllFit : List (ColumnSchema V) → List (Row V) → Type 0
  AllFit columns rows =
      (r : Row V) → 0 < copies r rows → validate_row_against_columns columns r ≡ ok tt

  pub validate_rows-AllFit :
      (columns : List (ColumnSchema V)) (rows : List (Row V))
      → validate_rows columns rows ≡ ok tt
      → AllFit columns rows
  unfolding validate_rows copies
  validate_rows-AllFit columns [] h r k = elim k [ ]
  validate_rows-AllFit columns (row ∷ rows) h r k =
      let parts =
        then_ok (validate_row_against_columns columns row) (validate_rows columns rows) h in
      elim (Bool-cases (equal_rows r row)) [
        | inl e ↦ rw (equal_rows-eq r row e) parts.0
        | inr e ↦ validate_rows-AllFit columns rows parts.1 r (ground (arith, k, e))
      ]

  pub AllFit-validate_rows :
      (columns : List (ColumnSchema V)) (rows : List (Row V))
      → AllFit columns rows
      → validate_rows columns rows ≡ ok tt
  unfolding validate_rows copies
  AllFit-validate_rows columns [] h = refl
  AllFit-validate_rows columns (row ∷ rows) h =
      rw (h row (ground (arith, equal_rows_self row)))
        (AllFit-validate_rows columns rows (λ r k. h r (omega (arith, k))))

  pub batch_new_ok :
      (columns : List (ColumnSchema V)) (rows : List (Row V))
      → validate_columns columns ≡ ok tt
      → validate_rows columns rows ≡ ok tt
      → batch_new columns rows ≡ ok (record { columns = columns; rows = rows })
  unfolding batch_new
  batch_new_ok columns rows h k = rw (h, k, batch_new) refl

  -- A batch with these columns, and with rows that satisfy `P`.
  abbrev pub BatchOf : List (ColumnSchema V) → (List (Row V) → Type 0) → VectorBatch V → Type 0
  BatchOf columns P batch = (batch.columns ≡ columns) × P batch.rows

  pub finish_batch-Yields :
      (columns : List (ColumnSchema V)) (P : List (Row V) → Type 0) (token : CancellationToken)
      (read : Result (List (Row V) × CancellationToken))
      → validate_columns columns ≡ ok tt
      → ((rows : List (Row V)) → P rows → AllFit columns rows)
      → Yields token P read
      → Yields token (BatchOf columns P) (finish_batch columns read)
  finish_batch-Yields columns P token read h fit k =
      bind-Yields P (BatchOf columns P) token read _ k (λ rows t p.
        check-Yields (BatchOf columns P) t _ (λ left.
          rw (batch_new_ok columns rows h (AllFit-validate_rows columns rows (fit rows p)))
            (ok-Yields (BatchOf columns P) left _ (refl, p))))
