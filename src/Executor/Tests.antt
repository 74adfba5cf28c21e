-- ===== src/Executor/Tests.antt =====
-- Runs of the operations on batches, and uses of their theorems.
use rnov_modular_db.Base.{
  ℕ, ◌≡◌, ◌↔◌, ◌⊎◌, refl, true, false, some, List, [], ◌∷◌, ◌==◌, ==_iff, In,
}
use rnov_modular_db.Common.{ErrorKind, ok, err, invalid_input, not_found}
use rnov_modular_db.Sql.Token.{Text, text, equal_text, to_lower}
use rnov_modular_db.Executor.Values.{SqlValues}
use rnov_modular_db.Executor.Vector.{
  ColumnSchema, column_new, not_null, Row, VectorBatch, validate_columns, validate_rows,
}
use rnov_modular_db.Executor.Cancellation.{CancellationToken, never, after}
use rnov_modular_db.Executor.SetOps.{
  validate_set_operation_columns, apply_union, apply_intersect, apply_except,
}
use rnov_modular_db.Executor.SetOps.Yields.{Yields}
use rnov_modular_db.Executor.SetOps.Batches.{IsBatch, AllFit, validate_rows-AllFit}
use rnov_modular_db.Executor.SetOps.Each.{except, apply, ResultOf}
use rnov_modular_db.Executor.SetOps.Laws.{apply-ResultOf, apply_union_iff}
use rnov_modular_db.Executor.Select.{column_index, filter_eq, project}
use rnov_modular_db.Executor.Select.Laws.{Selected, NotColumn, ColumnAt, Matches, filter_eq_outcome}
use rnov_modular_db.Executor.Select.Projection.{FoundAt, AllProjected, project_outcome}

-- Values are numbers of one type, and 0 stands for NULL.
abbrev numbers : SqlValues
numbers = record {
  value = ℕ;
  sql_type = ℕ;
  generated_column = ℕ;
  equal_values = ◌==◌;
  equal_types = ◌==◌;
  equal_values_iff = ==_iff;
  is_null = λ v. v == 0;
  data_type = λ v. 7;
  is_bytes = λ v. false;
}

abbrev row : ℕ → Row numbers
row n = record { values = n ∷ [] }

abbrev ids : List (ColumnSchema numbers)
ids = not_null (column_new (text "id") 7) ∷ []

abbrev maybe_ids : List (ColumnSchema numbers)
maybe_ids = column_new (text "ref") 7 ∷ []

abbrev left_side : VectorBatch numbers
left_side = record { columns = ids; rows = row 1 ∷ row 1 ∷ row 2 ∷ row 1 ∷ [] }

abbrev right_side : VectorBatch numbers
right_side = record { columns = maybe_ids; rows = row 1 ∷ row 3 ∷ [] }

abbrev with_null : VectorBatch numbers
with_null = record { columns = maybe_ids; rows = row 0 ∷ [] }

left_side-IsBatch : IsBatch left_side
unfolding validate_columns validate_rows
left_side-IsBatch = (refl, refl)

columns_match : validate_set_operation_columns left_side right_side ≡ ok tt
unfolding validate_set_operation_columns
columns_match = refl

except_all_run :
    apply_except left_side right_side true (after 20)
    ≡ ok (record { columns = ids; rows = row 1 ∷ row 2 ∷ row 1 ∷ [] }, after 13)
unfolding apply_except
except_all_run = refl

intersect_run :
    apply_intersect left_side right_side false never
    ≡ ok (record { columns = ids; rows = row 1 ∷ [] }, never)
unfolding apply_intersect
intersect_run = refl

-- A NULL on the right is refused although the types match.
union_null_run : apply_union left_side with_null true never ≡ err invalid_input
unfolding apply_union
union_null_run = refl

fits : validate_rows ids right_side.rows ≡ ok tt
unfolding validate_rows
fits = refl

right_side-AllFit : AllFit ids right_side.rows
right_side-AllFit = validate_rows-AllFit ids right_side.rows fits

apply-ResultOf_example :
    Yields
      (after 20)
      (ResultOf except true left_side right_side)
      (apply except left_side right_side true (after 20))
apply-ResultOf_example =
    apply-ResultOf except left_side right_side true (after 20) left_side-IsBatch columns_match
      (λ e r p. right_side-AllFit r p)

apply_union_iff_example : AllFit ids right_side.rows ↔ (
    (result : VectorBatch numbers × CancellationToken) × (apply_union left_side right_side true
        never
      ≡ ok result))
apply_union_iff_example = apply_union_iff left_side right_side true left_side-IsBatch columns_match

-- two columns, with a NULL in the second
abbrev pairs : VectorBatch numbers
pairs = record {
  columns = not_null (column_new (text "id") 7) ∷ column_new (text "ref") 7 ∷ [];
  rows = record { values = 1 ∷ 5 ∷ [] } ∷ record { values = 2 ∷ 0 ∷ [] } ∷ [];
}

pairs-IsBatch : IsBatch pairs
unfolding validate_columns validate_rows equal_text to_lower
pairs-IsBatch = (refl, refl)

filter_eq_run :
    filter_eq (text "ID") 2 pairs
    ≡ some (ok (record { columns = pairs.columns; rows = record { values = 2 ∷ 0 ∷ [] } ∷ [] }))
unfolding filter_eq equal_text to_lower
filter_eq_run = refl

project_run :
    project (text "Ref" ∷ []) pairs
    ≡ some (ok (record { columns = maybe_ids; rows = row 5 ∷ row 0 ∷ [] }))
unfolding project equal_text to_lower
project_run = refl

project_twice : project (text "id" ∷ text "ID" ∷ []) pairs ≡ some (err invalid_input)
unfolding project equal_text to_lower
project_twice = refl

filter_eq_outcome_example :
    ((filter_eq (text "ID") 2 pairs ≡ some (err not_found)) × NotColumn (text "ID") pairs.columns)
    ⊎ ((i : ℕ) × (column_index (text "ID") pairs ≡ ok i)
        × ColumnAt (text "ID") pairs.columns i
        × (kept : VectorBatch numbers) × (filter_eq (text "ID") 2 pairs ≡ some (ok kept))
        × (kept.columns ≡ pairs.columns)
        × Selected (Matches i 2) pairs.rows kept.rows
        × IsBatch kept)
filter_eq_outcome_example = filter_eq_outcome (text "ID") 2 pairs pairs-IsBatch

project_outcome_example :
    ((project (text "ref" ∷ []) pairs ≡ some (err not_found))
      × ((name : Text) × In name (text "ref" ∷ []) × NotColumn name pairs.columns))
    ⊎ ((indexes : List ℕ) × (columns : List (ColumnSchema numbers)) × FoundAt pairs.columns
          (text "ref" ∷ [])
          indexes
          columns
        × (((e : ErrorKind) × (validate_columns columns ≡ err e)
              × (project (text "ref" ∷ []) pairs ≡ some (err e)))
            ⊎ ((taken : VectorBatch numbers) × (project (text "ref" ∷ []) pairs ≡ some (ok taken))
                × (taken.columns ≡ columns)
                × AllProjected indexes pairs.rows taken.rows
                × IsBatch taken)))
project_outcome_example = project_outcome (text "ref" ∷ []) pairs pairs-IsBatch
