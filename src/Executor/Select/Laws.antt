-- ===== src/Executor/Select/Laws.antt =====
-- What a selection returns.
use rnov_modular_db.Base.{
  ℕ, zero, suc, ◌+◌, ◌<◌, ◌≡◌, refl, ap, ◌∙◌, ◌⊎◌, inl, inr, true, false, some, List, [], ◌∷◌,
  length, In, Bool-cases, arith,
}
use rnov_modular_db.Common.{ok, err, not_found}
use rnov_modular_db.Sql.Token.{Text}
use rnov_modular_db.Executor.Values.{SqlValues}
use rnov_modular_db.Executor.Vector.{
  ColumnSchema, Row, VectorBatch, validate_row_against_columns, validate_rows,
}
use rnov_modular_db.Executor.SetOps.Batches.{IsBatch, then_ok, batch_new_ok}
use rnov_modular_db.Executor.Select.{
  get_elem?, eq_ignore_ascii_case, find_column, column_index, rows_equal_at, filter_at, filter_eq,
}

-- The second list keeps, in their order, exactly the elements of the first that satisfy `P`.
pub data Selected {A : Type 0} (P : A → Type 0) : List A → List A → Type 0 where
  done : Selected P [] []
  keep : {x : A} {xs ys : List A} → P x → Selected P xs ys → Selected P (x ∷ xs) (x ∷ ys)
  leave : {x : A} {xs ys : List A} → ¬ P x → Selected P xs ys → Selected P (x ∷ xs) ys

pub get_elem?-ok :
    {A : Type 0} (xs : List A) (i : ℕ) → i < length xs → (x : A) × (get_elem? xs i ≡ some x)
unfolding get_elem?
get_elem?-ok [] i h = ground (arith, h)
get_elem?-ok (x ∷ xs) zero h = (x, refl)
get_elem?-ok (x ∷ xs) (suc i) h = get_elem?-ok xs i (omega (arith, h))

module _ {V : SqlValues} where
  -- The column of a name: none has it, or the one at the index does, and none before it.
  abbrev pub NotColumn : Text → List (ColumnSchema V) → Type 0
  NotColumn name columns =
      (c : ColumnSchema V) → In c columns → eq_ignore_ascii_case c.name name ≡ false

  abbrev pub ColumnAt : Text → List (ColumnSchema V) → ℕ → Type 0
  ColumnAt name columns i =
      (c : ColumnSchema V) × (get_elem? columns i ≡ some c)
      × (eq_ignore_ascii_case c.name name ≡ true)

  pub find_column_outcome :
      (name : Text) (k : ℕ) (columns : List (ColumnSchema V))
      → ((find_column name k columns ≡ err not_found) × NotColumn name columns)
        ⊎ ((i : ℕ) × (find_column name k columns ≡ ok (k + i))
            × (i < length columns)
            × ColumnAt name columns i)
  unfolding find_column get_elem?
  find_column_outcome name k [] = inl (refl, λ c e. elim e [ ])
  find_column_outcome name k (column ∷ columns) =
      elim (Bool-cases (eq_ignore_ascii_case column.name name)) [
        | inl e ↦ inr (0, rw e (ap ok (omega arith)), omega arith, (column, refl, e))
        | inr e ↦ elim (find_column_outcome name (suc k) columns) [
          | inl (none_found, differ) ↦ inl (
            rw e none_found,
            λ c i. elim i [ inl first ↦ rw first e | inr later ↦ differ c later ],
          )
          | inr (i, found, small, at) ↦
              inr (suc i, rw e (found ∙ ap ok (omega arith)), omega (arith, small), at)
        ]
      ]

  pub row_width :
      (columns : List (ColumnSchema V)) (row : Row V)
      → validate_row_against_columns columns row ≡ ok tt
      → length row.values ≡ length columns
  unfolding validate_row_against_columns
  row_width columns row h = ground (arith, h)

  -- The rows that are selected.
  abbrev pub Matches : ℕ → V.value → Row V → Type 0
  Matches i expected row = get_elem? row.values i ≡ some expected

  rows_equal_at_outcome :
      (columns : List (ColumnSchema V)) (i : ℕ) (expected : V.value) (rows : List (Row V))
      → i < length columns
      → validate_rows columns rows ≡ ok tt
      → (kept : List (Row V)) × (rows_equal_at i expected rows ≡ some kept)
        × Selected (Matches i expected) rows kept
        × (validate_rows columns kept ≡ ok tt)
  unfolding rows_equal_at validate_rows
  rows_equal_at_outcome columns i expected [] small valid = ([], refl, done, refl)
  rows_equal_at_outcome columns i expected (row ∷ rows) small valid =
      let (fits, others) =
        then_ok (validate_row_against_columns columns row) (validate_rows columns rows) valid in
      let (kept, is, selected, still) =
        rows_equal_at_outcome columns i expected rows small others in
      let (value, at) =
        get_elem?-ok row.values i (omega (arith, small, row_width columns row fits)) in
      elim (Bool-cases (V.equal_values value expected)) [
        | inl e ↦ (
          row ∷ kept,
          rw (at, is, e) refl,
          keep (at ∙ ap some ((V.equal_values_iff value expected).0 e)) selected,
          rw fits still,
        )
        | inr e ↦ (
          kept,
          rw (at, is, e) refl,
          leave (λ m. ground (arith, at, m, e, V.equal_values_iff value expected)) selected,
          still,
        )
      ]

  -- On a batch that was validated, `filter_eq` does not panic. It reports the column as not found if no
  -- column has the name, up to the case of ASCII letters; otherwise it returns a validated batch with
  -- the same columns and, in their order, exactly the rows that hold the value in the column at the
  -- index that `column_index` gives.
  pub filter_eq_outcome :
      (name : Text) (expected : V.value) (batch : VectorBatch V)
      → IsBatch batch
      → ((filter_eq name expected batch ≡ some (err not_found)) × NotColumn name batch.columns)
        ⊎ ((i : ℕ) × (column_index name batch ≡ ok i)
            × ColumnAt name batch.columns i
            × (kept : VectorBatch V) × (filter_eq name expected batch ≡ some (ok kept))
            × (kept.columns ≡ batch.columns)
            × Selected (Matches i expected) batch.rows kept.rows
            × IsBatch kept)
  unfolding filter_eq filter_at
  filter_eq_outcome name expected batch (columns_valid, rows_valid) =
      elim (find_column_outcome name 0 batch.columns) [
        | inl (none_found, differ) ↦ inl (rw (filter_eq, none_found) refl, differ)
        | inr (i, found, small, at) ↦
            let (rows, is, selected, valid) =
              rows_equal_at_outcome batch.columns i expected batch.rows small rows_valid in
            let first : column_index name batch ≡ ok i = found ∙ ap ok (omega arith) in
            inr (
              i,
              first,
              at,
              record { columns = batch.columns; rows = rows },
              rw
                  (
                    filter_eq,
                    first,
                    filter_at,
                    is,
                    batch_new_ok batch.columns rows columns_valid valid,
                  )
                  refl,
              refl,
              selected,
              (columns_valid, valid),
            )
      ]
