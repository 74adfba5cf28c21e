-- ===== src/Executor/SetOps/Each.antt =====
-- crates/rnmdb-executor/src/memory/set_ops.rs: each set operation as an operation on multisets.
use Prim.Native.Nat.{min}
use rnov_modular_db.Base.{
  ℕ, ◌+◌, ◌-◌, ◌<◌, ◌≡◌, refl, Bool, true, false, ◌==◌, List, [], ◌++◌, arith, inl, inr, ◌⊎◌,
  if◌then◌else◌,
}
use rnov_modular_db.Common.{Result, ok, ◌>>=◌}
use rnov_modular_db.Executor.Values.{SqlValues}
use rnov_modular_db.Executor.Vector.{Row, VectorBatch, batch_new}
use rnov_modular_db.Executor.Cancellation.{CancellationToken}
use rnov_modular_db.Executor.SetOps.{
  contains, apply_distinct, validate_set_operation_columns, apply_union, apply_intersect,
  apply_except,
}
use rnov_modular_db.Executor.SetOps.Rows.{copies, copies-append, contains-copies}
use rnov_modular_db.Executor.SetOps.Yields.{Yields, ok-Yields, bind-Yields, Yields-weaken}
use rnov_modular_db.Executor.SetOps.Loops.{
  Counted, distinct_rows-Yields, combined_rows-Yields, intersect_all-Yields, except_all-Yields,
  distinct_rows_by_right_membership-Yields,
}
use rnov_modular_db.Executor.SetOps.Batches.{
  IsBatch, AllFit, validate_rows-AllFit, AllFit-validate_rows, batch_new_ok, BatchOf,
  finish_batch-Yields,
}

pub data SetOperation : Type 0 where
  union intersect except : SetOperation

-- The copies of a row in the result of an operation with ALL, from those on the left and right.
abbrev pub copies_all : SetOperation → ℕ → ℕ → ℕ
copies_all union l r = l + r
copies_all intersect l r = min l r
copies_all except l r = l - r

-- Without ALL a row stands at most once in the result, and EXCEPT leaves out every row that the
-- right side has.
abbrev pub copies_distinct : SetOperation → ℕ → ℕ → ℕ
copies_distinct union l r = min 1 (l + r)
copies_distinct intersect l r = min 1 (min l r)
copies_distinct except l r = if r == 0 then min 1 l else 0

abbrev pub result_copies : SetOperation → Bool → ℕ → ℕ → ℕ
result_copies op all l r = if all then copies_all op l r else copies_distinct op l r

either_side :
    {V : SqlValues} (r : Row V) (xs ys : List (Row V))
    → 0 < copies r (xs ++ ys)
    → (0 < copies r xs) ⊎ (0 < copies r ys)
either_side r xs ys h = ground (arith, h, copies-append r xs ys)

module _ {V : SqlValues} where
  abbrev pub apply :
      SetOperation
      → VectorBatch V
      → VectorBatch V
      → Bool
      → CancellationToken
      → Result (VectorBatch V × CancellationToken)
  apply union = apply_union
  apply intersect = apply_intersect
  apply except = apply_except

  -- the batch that an operation on the two batches has to make
  abbrev pub ResultOf : SetOperation → Bool → VectorBatch V → VectorBatch V → VectorBatch V → Type 0
  ResultOf op all left right =
      BatchOf left.columns
        (Counted (λ r. result_copies op all (copies r left.rows) (copies r right.rows)))

  left_fits :
      (left : VectorBatch V) (f : Row V → ℕ)
      → IsBatch left
      → ((r : Row V) → 0 < f r → 0 < copies r left.rows)
      → (rows : List (Row V)) → Counted f rows
      → AllFit left.columns rows
  left_fits left f h le rows k r p =
      validate_rows-AllFit left.columns left.rows h.1 r (le r (omega (arith, k r, p)))

  pub apply_intersect-Yields :
      (left right : VectorBatch V) (all : Bool) (token : CancellationToken)
      → IsBatch left
      → validate_set_operation_columns left right ≡ ok tt
      → Yields token (ResultOf intersect all left right) (apply_intersect left right all token)
  unfolding apply_intersect
  apply_intersect-Yields left right true token h k = rw k (
      finish_batch-Yields left.columns _ token _ h.0 (left_fits left _ h (λ r p. omega (arith, p)))
        (intersect_all-Yields left.rows right.rows token))
  apply_intersect-Yields left right false token h k = rw k (
      finish_batch-Yields left.columns _ token _ h.0 (left_fits left _ h (λ r p. ground (arith, p)))
        (Yields-weaken _ _ token _
          (distinct_rows_by_right_membership-Yields left.rows right true token)
          (λ out c r.
            ground (arith, c r, contains-copies r left.rows, contains-copies r right.rows))))

  pub apply_except-Yields :
      (left right : VectorBatch V) (all : Bool) (token : CancellationToken)
      → IsBatch left
      → validate_set_operation_columns left right ≡ ok tt
      → Yields token (ResultOf except all left right) (apply_except left right all token)
  unfolding apply_except
  apply_except-Yields left right true token h k = rw k (
      finish_batch-Yields left.columns _ token _ h.0 (left_fits left _ h (λ r p. omega (arith, p)))
        (except_all-Yields left.rows right.rows token))
  apply_except-Yields left right false token h k = rw k (
      finish_batch-Yields left.columns _ token _ h.0 (left_fits left _ h (λ r p. ground (arith, p)))
        (Yields-weaken _ _ token _
          (distinct_rows_by_right_membership-Yields left.rows right false token)
          (λ out c r.
            ground (arith, c r, contains-copies r left.rows, contains-copies r right.rows))))

  apply_distinct-Yields :
      (batch : VectorBatch V) (token : CancellationToken)
      → IsBatch batch
      → Yields token
          (BatchOf batch.columns (Counted (λ r. min 1 (copies r batch.rows))))
          (apply_distinct batch token)
  unfolding apply_distinct contains
  apply_distinct-Yields batch token h =
      finish_batch-Yields batch.columns _ token _ h.0
        (left_fits batch _ h (λ r p. omega (arith, p)))
        (Yields-weaken _ _ token _ (distinct_rows-Yields [] batch.rows token)
          (λ out c r. ground (arith, c r, contains-copies r batch.rows)))

  -- the end of a union, on the rows that it has combined
  union_end :
      (left right : VectorBatch V) (all : Bool) (token : CancellationToken)
      → IsBatch left
      → AllFit left.columns (left.rows ++ right.rows)
      → Yields token (ResultOf union all left right) (
          batch_new left.columns (left.rows ++ right.rows)
          >>= (λ batch. elim all [ true ↦ ok (batch, token) | false ↦ apply_distinct batch token ]))
  union_end left right true token h fit =
      rw (batch_new_ok left.columns _ h.0 (AllFit-validate_rows left.columns _ fit))
        (ok-Yields _ token _ (refl, λ r. copies-append r left.rows right.rows))
  union_end left right false token h fit =
      let rows = left.rows ++ right.rows in
      let valid = AllFit-validate_rows left.columns rows fit in
      let batch : VectorBatch V = record { columns = left.columns; rows = rows } in
      rw (batch_new_ok left.columns rows h.0 valid) (
        Yields-weaken _ _ token _ (apply_distinct-Yields batch token (h.0, valid))
          (λ out c. (c.0, λ r. omega (arith, c.1 r, copies-append r left.rows right.rows))))

  pub apply_union-Yields :
      (left right : VectorBatch V) (all : Bool) (token : CancellationToken)
      → IsBatch left
      → validate_set_operation_columns left right ≡ ok tt
      → AllFit left.columns right.rows
      → Yields token (ResultOf union all left right) (apply_union left right all token)
  unfolding apply_union
  apply_union-Yields left right all token h k fit = rw k (
      bind-Yields _ _ token _ _ (combined_rows-Yields left.rows right.rows token) (λ rows t e.
        rw e (
          union_end left right all t h (λ r p. elim (either_side r left.rows right.rows p) [
            | inl q ↦ validate_rows-AllFit left.columns left.rows h.1 r q
            | inr q ↦ fit r q
          ]))))
