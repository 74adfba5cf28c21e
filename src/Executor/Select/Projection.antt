-- ===== src/Executor/Select/Projection.antt =====
-- What a projection returns.
use rnov_modular_db.Base.{
  ℕ, zero, suc, ◌<◌, ◌≡◌, refl, ap, ◌∙◌, ◌⊎◌, ◌↔◌, inl, inr, true, not, ◌&&◌, none, some, List, [],
  ◌∷◌, map, length, subst, In, Bool-cases, arith,
}
use rnov_modular_db.Common.{
  ErrorKind, Result, ok, err, invalid_input, reject_if, not_found, Result-cases, ◌>>◌,
}
use rnov_modular_db.Sql.Token.{Text}
use rnov_modular_db.Executor.Values.{SqlValues}
use rnov_modular_db.Executor.Vector.{
  encrypted_storage_value_matches, ColumnSchema, Row, VectorBatch, validate_values,
  validate_row_against_columns, validate_rows, validate_columns, batch_new,
}
use rnov_modular_db.Executor.SetOps.Batches.{IsBatch, then_ok, batch_new_ok}
use rnov_modular_db.Executor.Select.{
  get_elem?, eq_ignore_ascii_case, column_index, row_project, project_rows, project_columns,
  project_at, project,
}
use rnov_modular_db.Executor.Select.Laws.{NotColumn, find_column_outcome, get_elem?-ok}

some_injective : {A : Type 0} (a b : A) → some a ≡ some b → a ≡ b
some_injective a b e = ap (λ o. elim o [ none ↦ a | some x ↦ x ]) e

in_sequence :
    (r more : Result (Unit {0}))
    → ((r >> more) ≡ ok tt) ↔ (((r >> ok (tt {0})) ≡ ok (tt {0})) × (more ≡ ok tt))
in_sequence (ok _) more = (λ h. (refl, h), λ h. h.1)
in_sequence (err e) more = (λ h. ground (arith, h), λ h. ground (arith, h))

module _ {V : SqlValues} where
  -- The value may stand in the column.
  abbrev Fits : ColumnSchema V → V.value → Type 0
  Fits column value = validate_values (column ∷ []) (value ∷ []) ≡ ok tt

  Fits-here :
      (column : ColumnSchema V) (columns : List (ColumnSchema V)) (value : V.value)
      (values : List V.value)
      → (validate_values (column ∷ columns) (value ∷ values) ≡ ok tt)
        ↔ (Fits column value × (validate_values columns values ≡ ok tt))
  unfolding validate_values
  Fits-here column columns value values = elim (Bool-cases (V.is_null value)) [
    | inl e ↦
        rw (e, validate_values)
          (in_sequence (reject_if (not column.nullable) invalid_input)
            (validate_values columns values))
    | inr e ↦
        rw (e, validate_values)
          (in_sequence
            (reject_if
              (not (V.equal_types (V.data_type value) column.data_type)
                && not (encrypted_storage_value_matches column value))
              invalid_input)
            (validate_values columns values))
  ]

  Fits-at :
      (columns : List (ColumnSchema V)) (values : List V.value) (i : ℕ) (c : ColumnSchema V)
      (v : V.value)
      → validate_values columns values ≡ ok tt
      → get_elem? columns i ≡ some c
      → get_elem? values i ≡ some v
      → Fits c v
  unfolding get_elem?
  Fits-at [] values i c v valid at is = ground (arith, at)
  Fits-at (column ∷ columns) [] i c v valid at is = ground (arith, is)
  Fits-at (column ∷ columns) (value ∷ values) zero c v valid at is =
      subst (λ k. Fits k v) (some_injective column c at)
        (subst (Fits column) (some_injective value v is)
          ((Fits-here column columns value values).0 valid).0)
  Fits-at (column ∷ columns) (value ∷ values) (suc i) c v valid at is =
      Fits-at columns values i c v ((Fits-here column columns value values).0 valid).1 at is

  -- The names are those of the columns, which stand at the indexes.
  abbrev pub FoundAt : List (ColumnSchema V) → List Text → List ℕ → List (ColumnSchema V) → Type 0
  FoundAt all [] [] [] = Unit {0}
  FoundAt all (name ∷ names) (i ∷ indexes) (c ∷ columns) =
      (get_elem? all i ≡ some c)
      × (eq_ignore_ascii_case c.name name ≡ true)
      × (i < length all)
      × FoundAt all names indexes columns
  FoundAt all _ _ _ = ⊥

  -- Each name is that of a column, or one is not.
  project_columns_outcome :
      (names : List Text) (batch : VectorBatch V)
      → ((project_columns names batch ≡ some (err not_found))
          × ((name : Text) × In name names × NotColumn name batch.columns))
        ⊎ ((indexes : List ℕ) × (columns : List (ColumnSchema V)) × (project_columns names batch
              ≡ some (ok (indexes, columns)))
            × FoundAt batch.columns names indexes columns)
  unfolding project_columns
  project_columns_outcome [] batch = inr ([], [], refl, tt)
  project_columns_outcome (name ∷ names) batch = elim (find_column_outcome name 0 batch.columns) [
    | inl (none_found, differ) ↦
        inl (rw (project_columns, none_found) refl, (name, inl refl, differ))
    | inr (i, found, small, (c, at, same_name)) ↦
        let first : column_index name batch ≡ ok i = found ∙ ap ok (omega arith) in
        elim (project_columns_outcome names batch) [
          | inl (missing, (other, among, differ)) ↦
              inl (rw (project_columns, first, at, missing) refl, (other, inr among, differ))
          | inr (indexes, columns, are, all_found) ↦ inr (
            i ∷ indexes,
            c ∷ columns,
            rw (project_columns, first, at, are) refl,
            (at, same_name, small, all_found),
          )
        ]
  ]

  -- The second row holds the values of the first at the indexes.
  abbrev pub Projected : List ℕ → Row V → Row V → Type 0
  Projected indexes row taken =
      map (λ i. get_elem? row.values i) indexes ≡ map (λ v. some v) taken.values

  row_project_outcome :
      (all : List (ColumnSchema V)) (row : Row V) (names : List Text) (indexes : List ℕ)
      (columns : List (ColumnSchema V))
      → length row.values ≡ length all
      → validate_values all row.values ≡ ok tt
      → FoundAt all names indexes columns
      → (taken : Row V) × (row_project row indexes ≡ some taken)
        × Projected indexes row taken
        × (length taken.values ≡ length columns)
        × (validate_values columns taken.values ≡ ok tt)
  unfolding row_project validate_values
  row_project_outcome all row [] [] [] width valid found =
      (record { values = [] }, refl, refl, refl, refl)
  row_project_outcome all row (name ∷ names) (i ∷ indexes) (c ∷ columns) width valid
        (at, same_name, small, found) =
      let (taken, is, projected, size, fit) =
        row_project_outcome all row names indexes columns width valid found in
      let (v, at_row) = get_elem?-ok row.values i (omega (arith, small, width)) in
      (
        record { values = v ∷ taken.values },
        rw (at_row, is) refl,
        rw (at_row, projected) refl,
        ap suc size,
        (Fits-here c columns v taken.values).1 (Fits-at all row.values i c v valid at at_row, fit),
      )
  row_project_outcome all row [] [] (c ∷ columns) width valid found = elim found [ ]
  row_project_outcome all row [] (i ∷ indexes) columns width valid found = elim found [ ]
  row_project_outcome all row (name ∷ names) [] columns width valid found = elim found [ ]
  row_project_outcome all row (name ∷ names) (i ∷ indexes) [] width valid found = elim found [ ]

  row_parts :
      (columns : List (ColumnSchema V)) (row : Row V)
      → (validate_row_against_columns columns row ≡ ok tt)
        ↔ ((length row.values ≡ length columns) × (validate_values columns row.values ≡ ok tt))
  unfolding validate_row_against_columns
  row_parts columns row = (λ h. ground (arith, h), λ (width, valid). ground (arith, width, valid))

  -- Row by row, the second list holds the values of the first at the indexes.
  abbrev pub AllProjected : List ℕ → List (Row V) → List (Row V) → Type 0
  AllProjected indexes [] [] = Unit {0}
  AllProjected indexes (row ∷ rows) (taken ∷ more) =
      Projected indexes row taken × AllProjected indexes rows more
  AllProjected indexes _ _ = ⊥

  project_rows_outcome :
      (all : List (ColumnSchema V)) (names : List Text) (indexes : List ℕ)
      (columns : List (ColumnSchema V)) (rows : List (Row V))
      → FoundAt all names indexes columns
      → validate_rows all rows ≡ ok tt
      → (taken : List (Row V)) × (project_rows indexes rows ≡ some taken)
        × AllProjected indexes rows taken
        × (validate_rows columns taken ≡ ok tt)
  unfolding project_rows validate_rows
  project_rows_outcome all names indexes columns [] found valid = ([], refl, tt, refl)
  project_rows_outcome all names indexes columns (row ∷ rows) found valid =
      let (fits, others) =
        then_ok (validate_row_against_columns all row) (validate_rows all rows) valid in
      let (width, values_fit) = (row_parts all row).0 fits in
      let (first, is, projected, size, fit) =
        row_project_outcome all row names indexes columns width values_fit found in
      let (taken, are, all_projected, all_fit) =
        project_rows_outcome all names indexes columns rows found others in
      (
        first ∷ taken,
        rw (is, are) refl,
        (projected, all_projected),
        rw ((row_parts columns first).1 (size, fit)) all_fit,
      )

  -- On a batch that was validated, `project` does not panic. It reports a column as not found if one
  -- of the names is that of no column. Otherwise each name is found at an index, and the result is
  -- decided by the columns found there: where these are not valid, as for no name at all or the same
  -- name twice, their error is returned, and else a validated batch with these columns and, row by
  -- row, the values at these indexes.
  pub project_outcome :
      (names : List Text) (batch : VectorBatch V)
      → IsBatch batch
      → ((project names batch ≡ some (err not_found))
          × ((name : Text) × In name names × NotColumn name batch.columns))
        ⊎ ((indexes : List ℕ) × (columns : List (ColumnSchema V)) × FoundAt batch.columns names
              indexes columns
            × (((e : ErrorKind) × (validate_columns columns ≡ err e)
                  × (project names batch ≡ some (err e)))
                ⊎ ((taken : VectorBatch V) × (project names batch ≡ some (ok taken))
                    × (taken.columns ≡ columns)
                    × AllProjected indexes batch.rows taken.rows
                    × IsBatch taken)))
  unfolding project project_at batch_new
  project_outcome names batch (columns_valid, rows_valid) =
      elim (project_columns_outcome names batch) [
        | inl (missing, name) ↦ inl (rw (project, missing) refl, name)
        | inr (indexes, columns, are, found) ↦
            let (rows, is, projected, valid) =
              project_rows_outcome batch.columns names indexes columns batch.rows found
                rows_valid in
            inr (
              indexes,
              columns,
              found,
              elim (Result-cases (validate_columns columns)) [
                | inr (e, refused) ↦
                    inl (e, refused, rw (project, are, project_at, is, batch_new, refused) refl)
                | inl (_, accepted) ↦ inr (
                  record { columns = columns; rows = rows },
                  rw (project, are, project_at, is, batch_new_ok columns rows accepted valid) refl,
                  refl,
                  projected,
                  (accepted, valid),
                )
              ],
            )
      ]
