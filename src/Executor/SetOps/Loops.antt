-- ===== src/Executor/SetOps/Loops.antt =====
-- crates/rnmdb-executor/src/memory/set_ops.rs: how often a row stands in what each loop returns.
use Prim.Native.Nat.{min}
use rnov_modular_db.Base.{
  ℕ, ◌+◌, ◌-◌, ◌≡◌, refl, ap, Bool, not, ◌&&◌, ◌||◌, List, [], ◌∷◌, ◌++◌, arith, inl, inr,
  Bool-cases, Option-cases,
}
use rnov_modular_db.Common.{◌>>=◌}
use rnov_modular_db.Executor.Values.{SqlValues}
use rnov_modular_db.Executor.Vector.{Row, VectorBatch}
use rnov_modular_db.Executor.Cancellation.{CancellationToken}
use rnov_modular_db.Executor.SetOps.{
  contains, distinct_rows, append_rows, combined_rows, row_set, same_bool, matching_rows, RowCounts,
  count_row, row_counts, distinct_rows_by_right_membership, take_row, intersect_all_rows,
  except_all_rows,
}
use rnov_modular_db.Executor.SetOps.Rows.{
  bit, copies, contains_same, amount, amount_same, amount-count_row, take_row-Takes,
}
use rnov_modular_db.Executor.SetOps.Yields.{
  Yields, ok-Yields, check-Yields, bind-Yields, push-Yields, Yields-weaken,
}

module _ {V : SqlValues} where
  -- The rows in which `r` stands `f r` times, for every `r`.
  abbrev pub Counted : (Row V → ℕ) → List (Row V) → Type 0
  Counted f rows = (r : Row V) → copies r rows ≡ f r

  pub distinct_rows-Yields :
      (seen rows : List (Row V)) (token : CancellationToken)
      → Yields token
          (Counted (λ r. bit (not (contains r seen) && contains r rows)))
          (distinct_rows seen rows token)
  unfolding distinct_rows contains copies
  distinct_rows-Yields seen [] token = ok-Yields _ token [] (λ r. ground arith)
  distinct_rows-Yields seen (row ∷ rows) token = check-Yields _ token _ (λ left.
      elim (Bool-cases (contains row seen)) [
        | inl h ↦ rw h (
            Yields-weaken _ _ left _ (distinct_rows-Yields seen rows left)
              (λ out k r. ground (arith, k r, h, contains_same r row seen)))
        | inr h ↦ rw h (
            push-Yields _ _ row left _ (distinct_rows-Yields (row ∷ seen) rows left)
              (λ out k r. ground (arith, k r, h, contains_same r row seen)))
      ])

  append_rows-Yields :
      (rows : List (Row V)) (token : CancellationToken)
      → Yields token (λ out. out ≡ rows) (append_rows rows token)
  unfolding append_rows
  append_rows-Yields [] token = ok-Yields _ token [] refl
  append_rows-Yields (row ∷ rows) token =
      check-Yields _ token _ (λ left.
        push-Yields _ _ row left _ (append_rows-Yields rows left) (λ out k. ap (◌∷◌ row) k))

  pub combined_rows-Yields :
      (left right : List (Row V)) (token : CancellationToken)
      → Yields token (λ out. out ≡ left ++ right) (combined_rows left right token)
  unfolding combined_rows
  combined_rows-Yields left right token =
      bind-Yields _ _ token _ _ (append_rows-Yields left token) (λ l t e.
        bind-Yields _ _ t _ _ (append_rows-Yields right t)
          (λ r u d. check-Yields _ u _ (λ v. ok-Yields _ v (l ++ r) (rw (e, d) refl))))

  -- The set holds these rows and those that it held.
  row_set-Yields :
      (set rows : List (Row V)) (token : CancellationToken)
      → Yields token
          (λ out. (r : Row V) → contains r out ≡ (contains r rows || contains r set))
          (row_set set rows token)
  unfolding row_set contains
  row_set-Yields set [] token = ok-Yields _ token set (λ r. refl)
  row_set-Yields set (row ∷ rows) token = check-Yields _ token _ (λ left.
      Yields-weaken _ _ left _ (row_set-Yields (row ∷ set) rows left)
        (λ out k r. ground (arith, k r)))

  matching_rows-Yields :
      (right : List (Row V)) (keep : Bool) (emitted rows : List (Row V)) (token : CancellationToken)
      → Yields token
          (Counted (λ r.
            bit (same_bool (contains r right) keep && not (contains r emitted) && contains r rows)))
          (matching_rows right keep emitted rows token)
  unfolding matching_rows contains copies
  matching_rows-Yields right keep emitted [] token = ok-Yields _ token [] (λ r. ground arith)
  matching_rows-Yields right keep emitted (row ∷ rows) token = check-Yields _ token _ (λ left.
      elim (Bool-cases (same_bool (contains row right) keep && not (contains row emitted))) [
        | inl h ↦ rw h (
            push-Yields _ _ row left _ (matching_rows-Yields right keep (row ∷ emitted) rows left)
              (λ out k r.
                ground (arith, k r, h, contains_same r row right, contains_same r row emitted)))
        | inr h ↦ rw h (
            Yields-weaken _ _ left _ (matching_rows-Yields right keep emitted rows left) (λ out k r.
              ground (arith, k r, h, contains_same r row right, contains_same r row emitted)))
      ])

  row_counts-Yields :
      (counts : RowCounts V) (rows : List (Row V)) (token : CancellationToken)
      → Yields token
          (λ out. (r : Row V) → amount r out ≡ copies r rows + amount r counts)
          (row_counts counts rows token)
  unfolding row_counts copies
  row_counts-Yields counts [] token = ok-Yields _ token counts (λ r. omega arith)
  row_counts-Yields counts (row ∷ rows) token = check-Yields _ token _ (λ left.
      Yields-weaken _ _ left _ (row_counts-Yields (count_row row counts) rows left)
        (λ out k r. omega (arith, k r, amount-count_row r row counts)))

  intersect_all_rows-Yields :
      (counts : RowCounts V) (rows : List (Row V)) (token : CancellationToken)
      → Yields token
          (Counted (λ r. min (copies r rows) (amount r counts)))
          (intersect_all_rows counts rows token)
  unfolding intersect_all_rows copies
  intersect_all_rows-Yields counts [] token = ok-Yields _ token [] (λ r. omega arith)
  intersect_all_rows-Yields counts (row ∷ rows) token = check-Yields _ token _ (λ left.
      elim (Option-cases (take_row row counts)) [
        | inl e ↦ rw e (
            Yields-weaken _ _ left _ (intersect_all_rows-Yields counts rows left) (λ out k r.
              ground (arith, k r, rw e at (take_row-Takes row counts), amount_same r row counts)))
        | inr (fewer, e) ↦ rw e (
            push-Yields _ _ row left _ (intersect_all_rows-Yields fewer rows left)
              (λ out k r. omega (arith, k r, (rw e at (take_row-Takes row counts)).1 r)))
      ])

  except_all_rows-Yields :
      (counts : RowCounts V) (rows : List (Row V)) (token : CancellationToken)
      → Yields token
          (Counted (λ r. copies r rows - amount r counts))
          (except_all_rows counts rows token)
  unfolding except_all_rows copies
  except_all_rows-Yields counts [] token = ok-Yields _ token [] (λ r. omega arith)
  except_all_rows-Yields counts (row ∷ rows) token = check-Yields _ token _ (λ left.
      elim (Option-cases (take_row row counts)) [
        | inl e ↦ rw e (
            push-Yields _ _ row left _ (except_all_rows-Yields counts rows left) (λ out k r.
              ground (arith, k r, rw e at (take_row-Takes row counts), amount_same r row counts)))
        | inr (fewer, e) ↦ rw e (
            Yields-weaken _ _ left _ (except_all_rows-Yields fewer rows left)
              (λ out k r. omega (arith, k r, (rw e at (take_row-Takes row counts)).1 r)))
      ])

  pub intersect_all-Yields :
      (left right : List (Row V)) (token : CancellationToken)
      → Yields token
          (Counted (λ r. min (copies r left) (copies r right)))
          (row_counts [] right token >>= (λ c. intersect_all_rows c.0 left c.1))
  unfolding amount
  intersect_all-Yields left right token =
      bind-Yields _ _ token _ _ (row_counts-Yields [] right token) (λ counts t h.
        Yields-weaken _ _ t _ (intersect_all_rows-Yields counts left t)
          (λ out k r. omega (arith, k r, h r)))

  pub except_all-Yields :
      (left right : List (Row V)) (token : CancellationToken)
      → Yields token
          (Counted (λ r. copies r left - copies r right))
          (row_counts [] right token >>= (λ c. except_all_rows c.0 left c.1))
  unfolding amount
  except_all-Yields left right token =
      bind-Yields _ _ token _ _ (row_counts-Yields [] right token) (λ counts t h.
        Yields-weaken _ _ t _ (except_all_rows-Yields counts left t)
          (λ out k r. omega (arith, k r, h r)))

  pub distinct_rows_by_right_membership-Yields :
      (left : List (Row V)) (right : VectorBatch V) (keep : Bool) (token : CancellationToken)
      → Yields token
          (Counted (λ r. bit (same_bool (contains r right.rows) keep && contains r left)))
          (distinct_rows_by_right_membership left right keep token)
  unfolding distinct_rows_by_right_membership contains
  distinct_rows_by_right_membership-Yields left right keep token =
      bind-Yields _ _ token _ _ (row_set-Yields [] right.rows token) (λ set t h.
        Yields-weaken _ _ t _ (matching_rows-Yields set keep [] left t)
          (λ out k r. ground (arith, k r, h r)))
