-- ===== src/Executor/SetOps/Laws.antt =====
-- crates/rnmdb-executor/src/memory/set_ops.rs: the set operations as operations on multisets.
use rnov_modular_db.Base.{◌≡◌, refl, sym, ◌∙◌, ◌↔◌, ◌≢◌, Bool, List, ◌++◌, arith, inl, inr}
use rnov_modular_db.Common.{ErrorKind, Result, ok, err, ◌>>◌, Result-cases}
use rnov_modular_db.Executor.Values.{SqlValues}
use rnov_modular_db.Executor.Vector.{
  ColumnSchema, Row, VectorBatch, validate_columns, validate_rows, batch_new,
}
use rnov_modular_db.Executor.Cancellation.{CancellationToken, never}
use rnov_modular_db.Executor.SetOps.{validate_set_operation_columns, combined_rows, apply_union}
use rnov_modular_db.Executor.SetOps.Rows.{copies-append}
use rnov_modular_db.Executor.SetOps.Yields.{Yields, Yields-never}
use rnov_modular_db.Executor.SetOps.Loops.{combined_rows-Yields}
use rnov_modular_db.Executor.SetOps.Batches.{IsBatch, AllFit, validate_rows-AllFit}
use rnov_modular_db.Executor.SetOps.Each.{
  SetOperation, union, intersect, except, apply, ResultOf, apply_union-Yields,
  apply_intersect-Yields, apply_except-Yields,
}

-- Let both sides be made by `VectorBatch::new`, with columns that match, and for UNION let the rows
-- on the right fit the columns on the left. Then each of UNION, INTERSECT and EXCEPT, with ALL or
-- without, returns a batch with the columns of the left side in which every row stands as often as
-- the operation on multisets says; the only other outcome is that the token cancels it.
pub apply-ResultOf :
    {V : SqlValues} (op : SetOperation) (left right : VectorBatch V) (all : Bool)
    (token : CancellationToken)
    → IsBatch left
    → validate_set_operation_columns left right ≡ ok tt
    → (op ≡ union → AllFit left.columns right.rows)
    → Yields token (ResultOf op all left right) (apply op left right all token)
apply-ResultOf union left right all token h k fit =
    apply_union-Yields left right all token h k (fit refl)
apply-ResultOf intersect left right all token h k fit =
    apply_intersect-Yields left right all token h k
apply-ResultOf except left right all token h k fit = apply_except-Yields left right all token h k

right_fits :
    {V : SqlValues} (left right : VectorBatch V)
    → validate_rows left.columns (left.rows ++ right.rows) ≡ ok tt
    → AllFit left.columns right.rows
right_fits left right h r p =
    validate_rows-AllFit left.columns (left.rows ++ right.rows) h r
      (omega (arith, p, copies-append r left.rows right.rows))

ok_not_err : {T : Type 0} (e : ErrorKind) (a : T) → err e ≢ ok a
ok_not_err e a h = ground (arith, h)

-- A set operation that nobody cancels ends with a batch, under the same conditions.
apply_completes :
    {V : SqlValues} (op : SetOperation) (left right : VectorBatch V) (all : Bool)
    → IsBatch left
    → validate_set_operation_columns left right ≡ ok tt
    → (op ≡ union → AllFit left.columns right.rows)
    → (batch : VectorBatch V) × (token : CancellationToken) × (apply op left right all never
        ≡ ok (batch, token))
      × ResultOf op all left right batch
apply_completes op left right all h k fit =
    Yields-never _ _ (apply-ResultOf op left right all never h k fit)

second_ok :
    {T : Type 0} (a b : Result (Unit {0})) (rest : Result T) (made : T)
    → (a >> b >> rest) ≡ ok made
    → b ≡ ok tt
second_ok (ok _) (ok _) rest made h = refl
second_ok (ok _) (err e) rest made h = ground (arith, h)
second_ok (err e) b rest made h = ground (arith, h)

batch_new-valid :
    {V : SqlValues} (columns : List (ColumnSchema V)) (rows : List (Row V)) (batch : VectorBatch V)
    → batch_new columns rows ≡ ok batch
    → validate_rows columns rows ≡ ok tt
unfolding batch_new
batch_new-valid columns rows batch h =
    second_ok (validate_columns columns) (validate_rows columns rows) _ batch h

union_error :
    {V : SqlValues} (left right : VectorBatch V) (all : Bool) (rows : List (Row V))
    (token : CancellationToken) (e : ErrorKind)
    → validate_set_operation_columns left right ≡ ok tt
    → combined_rows left.rows right.rows never ≡ ok (rows, token)
    → batch_new left.columns rows ≡ err e
    → apply_union left right all never ≡ err e
unfolding apply_union
union_error left right all rows token e k c h = rw (k, c, h, apply_union) refl

-- Let the types of the columns match and nobody cancel. Then UNION returns a batch exactly if every
-- row on the right fits the columns on the left: it fails on a NULL of the right side in a column
-- that the left side has as not null.
pub apply_union_iff :
    {V : SqlValues} (left right : VectorBatch V) (all : Bool)
    → IsBatch left
    → validate_set_operation_columns left right ≡ ok tt
    → AllFit left.columns right.rows ↔ (
        (result : VectorBatch V × CancellationToken) × (apply_union left right all never
          ≡ ok result))
apply_union_iff left right all h k =
    let c = Yields-never _ _ (combined_rows-Yields left.rows right.rows never) in
    (
      λ fit. let r = apply_completes union left right all h k (λ e. fit) in ((r.0, r.1), r.2),
      λ made. elim (Result-cases (batch_new left.columns c.0)) [
        | inl (batch, b) ↦
            right_fits left right (rw c.3 at (batch_new-valid left.columns c.0 batch b))
        | inr (e, b) ↦
            elim (ok_not_err e made.0
              (sym (union_error left right all c.0 c.1 e k c.2 b) ∙ made.1)) [ ]
      ],
    )
