-- ===== src/Planner/Optimizer/Stable.antt =====
-- crates/rnmdb-planner/src/optimizer.rs: plans on which the optimizer has nothing left to do.
use rnov_modular_db.Base.{ℕ, zero, suc, ◌≤◌, ◌≡◌, refl, ◌∙◌, some, arith}
use rnov_modular_db.Planner.Logical.{
  Ast, LogicalPlan, aggregate, distinct, except, exists_subquery_filter, filter, grouped_aggregate,
  grouping_sets_aggregate, hash_join, in_subquery_filter, intersect, limit, nested_loop_join,
  offset, parallel, project, recursive_cte, sideways_lookup, sort, union, window,
}
use rnov_modular_db.Planner.Optimizer.{optimize_plan}
use rnov_modular_db.Planner.Optimizer.Meaning.{size, IsPushed}
use rnov_modular_db.Planner.Optimizer.Push.{no_fuel, push_filter_other, optimize_filter}

pub optimize_plan_unchanged :
    {A : Ast} (fuel : ℕ) (p : LogicalPlan A)
    → IsPushed p
    → size p ≤ fuel
    → optimize_plan fuel p ≡ some p
unfolding optimize_plan size IsPushed
optimize_plan_unchanged zero p pushed le = elim (no_fuel p le) [ ]
optimize_plan_unchanged (suc fuel) (filter e p) pushed le =
    optimize_filter fuel e p p (optimize_plan_unchanged fuel p pushed.0 (omega (arith, le)))
    ∙ push_filter_other _ e p pushed.1
optimize_plan_unchanged (suc fuel) (in_subquery_filter e s n p) pushed le =
    rw
      (
        optimize_plan_unchanged fuel s pushed.0 (omega (arith, le)),
        optimize_plan_unchanged fuel p pushed.1 (omega (arith, le)),
        optimize_plan,
      )
      refl
optimize_plan_unchanged (suc fuel) (exists_subquery_filter s n p) pushed le =
    rw
      (
        optimize_plan_unchanged fuel s pushed.0 (omega (arith, le)),
        optimize_plan_unchanged fuel p pushed.1 (omega (arith, le)),
        optimize_plan,
      )
      refl
optimize_plan_unchanged (suc fuel) (sideways_lookup p r t c d) pushed le =
    rw (optimize_plan_unchanged fuel p pushed (omega (arith, le)), optimize_plan) refl
optimize_plan_unchanged (suc fuel) (nested_loop_join k p q e) pushed le =
    rw
      (
        optimize_plan_unchanged fuel p pushed.0 (omega (arith, le)),
        optimize_plan_unchanged fuel q pushed.1 (omega (arith, le)),
        optimize_plan,
      )
      refl
optimize_plan_unchanged (suc fuel) (hash_join k p q c d) pushed le =
    rw
      (
        optimize_plan_unchanged fuel p pushed.0 (omega (arith, le)),
        optimize_plan_unchanged fuel q pushed.1 (omega (arith, le)),
        optimize_plan,
      )
      refl
optimize_plan_unchanged (suc fuel) (project is p) pushed le =
    rw (optimize_plan_unchanged fuel p pushed (omega (arith, le)), optimize_plan) refl
optimize_plan_unchanged (suc fuel) (window is p) pushed le =
    rw (optimize_plan_unchanged fuel p pushed (omega (arith, le)), optimize_plan) refl
optimize_plan_unchanged (suc fuel) (aggregate is p) pushed le =
    rw (optimize_plan_unchanged fuel p pushed (omega (arith, le)), optimize_plan) refl
optimize_plan_unchanged (suc fuel) (grouped_aggregate g is p) pushed le =
    rw (optimize_plan_unchanged fuel p pushed (omega (arith, le)), optimize_plan) refl
optimize_plan_unchanged (suc fuel) (grouping_sets_aggregate g gs is p) pushed le =
    rw (optimize_plan_unchanged fuel p pushed (omega (arith, le)), optimize_plan) refl
optimize_plan_unchanged (suc fuel) (distinct p) pushed le =
    rw (optimize_plan_unchanged fuel p pushed (omega (arith, le)), optimize_plan) refl
optimize_plan_unchanged (suc fuel) (union b p q) pushed le =
    rw
      (
        optimize_plan_unchanged fuel p pushed.0 (omega (arith, le)),
        optimize_plan_unchanged fuel q pushed.1 (omega (arith, le)),
        optimize_plan,
      )
      refl
optimize_plan_unchanged (suc fuel) (intersect b p q) pushed le =
    rw
      (
        optimize_plan_unchanged fuel p pushed.0 (omega (arith, le)),
        optimize_plan_unchanged fuel q pushed.1 (omega (arith, le)),
        optimize_plan,
      )
      refl
optimize_plan_unchanged (suc fuel) (except b p q) pushed le =
    rw
      (
        optimize_plan_unchanged fuel p pushed.0 (omega (arith, le)),
        optimize_plan_unchanged fuel q pushed.1 (omega (arith, le)),
        optimize_plan,
      )
      refl
optimize_plan_unchanged (suc fuel) (recursive_cte x cs p q o) pushed le =
    rw
      (
        optimize_plan_unchanged fuel p pushed.0 (omega (arith, le)),
        optimize_plan_unchanged fuel q pushed.1 (omega (arith, le)),
        optimize_plan_unchanged fuel o pushed.2 (omega (arith, le)),
        optimize_plan,
      )
      refl
optimize_plan_unchanged (suc fuel) (sort ks p) pushed le =
    rw (optimize_plan_unchanged fuel p pushed (omega (arith, le)), optimize_plan) refl
optimize_plan_unchanged (suc fuel) (limit c p) pushed le =
    rw (optimize_plan_unchanged fuel p pushed (omega (arith, le)), optimize_plan) refl
optimize_plan_unchanged (suc fuel) (offset c p) pushed le =
    rw (optimize_plan_unchanged fuel p pushed (omega (arith, le)), optimize_plan) refl
optimize_plan_unchanged (suc fuel) (parallel h p) pushed le =
    rw (optimize_plan_unchanged fuel p pushed (omega (arith, le)), optimize_plan) refl
optimize_plan_unchanged (suc fuel) other pushed le = refl
