-- ===== src/Planner/Optimizer/Correct.antt =====
-- crates/rnmdb-planner/src/optimizer.rs: what `optimize_plan` returns.
use rnov_modular_db.Base.{ℕ, zero, suc, ◌≤◌, refl, arith}
use rnov_modular_db.Planner.Logical.{
  Ast, LogicalPlan, aggregate, distinct, except, exists_subquery_filter, filter, grouped_aggregate,
  grouping_sets_aggregate, hash_join, in_subquery_filter, intersect, limit, nested_loop_join,
  offset, parallel, project, recursive_cte, sideways_lookup, sort, union, window,
}
use rnov_modular_db.Planner.Optimizer.{optimize_plan}
use rnov_modular_db.Planner.Optimizer.Meaning.{meaning, size, IsPushed}
use rnov_modular_db.Planner.Optimizer.Push.{Optimized, no_fuel, filter-Optimized}

-- `optimize_plan` on a node is its calls on the inputs.
pub optimize_plan-Optimized :
    {A : Ast} (fuel : ℕ) (p : LogicalPlan A) → size p ≤ fuel → Optimized p (optimize_plan fuel p)
unfolding optimize_plan size IsPushed meaning
optimize_plan-Optimized zero p le = elim (no_fuel p le) [ ]
optimize_plan-Optimized (suc fuel) (filter e p) le =
    filter-Optimized fuel e p (optimize_plan-Optimized fuel p (omega (arith, le)))
      (omega (arith, le)) (λ q small. optimize_plan-Optimized fuel (filter e q) small)
optimize_plan-Optimized (suc fuel) (in_subquery_filter e s n p) le =
    let s2 = optimize_plan-Optimized fuel s (omega (arith, le)) in
    let p2 = optimize_plan-Optimized fuel p (omega (arith, le)) in
    (
      in_subquery_filter e s2.0 n p2.0,
      rw (s2.1, p2.1, optimize_plan) refl,
      omega (arith, s2.2, p2.2),
      (s2.3, p2.3),
      λ D M k. rw (s2.4 D M k, p2.4 D M k, meaning) refl,
    )
optimize_plan-Optimized (suc fuel) (exists_subquery_filter s n p) le =
    let s2 = optimize_plan-Optimized fuel s (omega (arith, le)) in
    let p2 = optimize_plan-Optimized fuel p (omega (arith, le)) in
    (
      exists_subquery_filter s2.0 n p2.0,
      rw (s2.1, p2.1, optimize_plan) refl,
      omega (arith, s2.2, p2.2),
      (s2.3, p2.3),
      λ D M k. rw (s2.4 D M k, p2.4 D M k, meaning) refl,
    )
optimize_plan-Optimized (suc fuel) (sideways_lookup p r t c d) le =
    let p2 = optimize_plan-Optimized fuel p (omega (arith, le)) in
    (
      sideways_lookup p2.0 r t c d,
      rw (p2.1, optimize_plan) refl,
      omega (arith, p2.2),
      p2.3,
      λ D M k. rw (p2.4 D M k, meaning) refl,
    )
optimize_plan-Optimized (suc fuel) (nested_loop_join k p q e) le =
    let p2 = optimize_plan-Optimized fuel p (omega (arith, le)) in
    let q2 = optimize_plan-Optimized fuel q (omega (arith, le)) in
    (
      nested_loop_join k p2.0 q2.0 e,
      rw (p2.1, q2.1, optimize_plan) refl,
      omega (arith, p2.2, q2.2),
      (p2.3, q2.3),
      λ D M k. rw (p2.4 D M k, q2.4 D M k, meaning) refl,
    )
optimize_plan-Optimized (suc fuel) (hash_join k p q c d) le =
    let p2 = optimize_plan-Optimized fuel p (omega (arith, le)) in
    let q2 = optimize_plan-Optimized fuel q (omega (arith, le)) in
    (
      hash_join k p2.0 q2.0 c d,
      rw (p2.1, q2.1, optimize_plan) refl,
      omega (arith, p2.2, q2.2),
      (p2.3, q2.3),
      λ D M k. rw (p2.4 D M k, q2.4 D M k, meaning) refl,
    )
optimize_plan-Optimized (suc fuel) (project is p) le =
    let p2 = optimize_plan-Optimized fuel p (omega (arith, le)) in
    (
      project is p2.0,
      rw (p2.1, optimize_plan) refl,
      omega (arith, p2.2),
      p2.3,
      λ D M k. rw (p2.4 D M k, meaning) refl,
    )
optimize_plan-Optimized (suc fuel) (window is p) le =
    let p2 = optimize_plan-Optimized fuel p (omega (arith, le)) in
    (
      window is p2.0,
      rw (p2.1, optimize_plan) refl,
      omega (arith, p2.2),
      p2.3,
      λ D M k. rw (p2.4 D M k, meaning) refl,
    )
optimize_plan-Optimized (suc fuel) (aggregate is p) le =
    let p2 = optimize_plan-Optimized fuel p (omega (arith, le)) in
    (
      aggregate is p2.0,
      rw (p2.1, optimize_plan) refl,
      omega (arith, p2.2),
      p2.3,
      λ D M k. rw (p2.4 D M k, meaning) refl,
    )
optimize_plan-Optimized (suc fuel) (grouped_aggregate g is p) le =
    let p2 = optimize_plan-Optimized fuel p (omega (arith, le)) in
    (
      grouped_aggregate g is p2.0,
      rw (p2.1, optimize_plan) refl,
      omega (arith, p2.2),
      p2.3,
      λ D M k. rw (p2.4 D M k, meaning) refl,
    )
optimize_plan-Optimized (suc fuel) (grouping_sets_aggregate g gs is p) le =
    let p2 = optimize_plan-Optimized fuel p (omega (arith, le)) in
    (
      grouping_sets_aggregate g gs is p2.0,
      rw (p2.1, optimize_plan) refl,
      omega (arith, p2.2),
      p2.3,
      λ D M k. rw (p2.4 D M k, meaning) refl,
    )
optimize_plan-Optimized (suc fuel) (distinct p) le =
    let p2 = optimize_plan-Optimized fuel p (omega (arith, le)) in
    (
      distinct p2.0,
      rw (p2.1, optimize_plan) refl,
      omega (arith, p2.2),
      p2.3,
      λ D M k. rw (p2.4 D M k, meaning) refl,
    )
optimize_plan-Optimized (suc fuel) (union b p q) le =
    let p2 = optimize_plan-Optimized fuel p (omega (arith, le)) in
    let q2 = optimize_plan-Optimized fuel q (omega (arith, le)) in
    (
      union b p2.0 q2.0,
      rw (p2.1, q2.1, optimize_plan) refl,
      omega (arith, p2.2, q2.2),
      (p2.3, q2.3),
      λ D M k. rw (p2.4 D M k, q2.4 D M k, meaning) refl,
    )
optimize_plan-Optimized (suc fuel) (intersect b p q) le =
    let p2 = optimize_plan-Optimized fuel p (omega (arith, le)) in
    let q2 = optimize_plan-Optimized fuel q (omega (arith, le)) in
    (
      intersect b p2.0 q2.0,
      rw (p2.1, q2.1, optimize_plan) refl,
      omega (arith, p2.2, q2.2),
      (p2.3, q2.3),
      λ D M k. rw (p2.4 D M k, q2.4 D M k, meaning) refl,
    )
optimize_plan-Optimized (suc fuel) (except b p q) le =
    let p2 = optimize_plan-Optimized fuel p (omega (arith, le)) in
    let q2 = optimize_plan-Optimized fuel q (omega (arith, le)) in
    (
      except b p2.0 q2.0,
      rw (p2.1, q2.1, optimize_plan) refl,
      omega (arith, p2.2, q2.2),
      (p2.3, q2.3),
      λ D M k. rw (p2.4 D M k, q2.4 D M k, meaning) refl,
    )
optimize_plan-Optimized (suc fuel) (recursive_cte x cs p q o) le =
    let p2 = optimize_plan-Optimized fuel p (omega (arith, le)) in
    let q2 = optimize_plan-Optimized fuel q (omega (arith, le)) in
    let o2 = optimize_plan-Optimized fuel o (omega (arith, le)) in
    (
      recursive_cte x cs p2.0 q2.0 o2.0,
      rw (p2.1, q2.1, o2.1, optimize_plan) refl,
      omega (arith, p2.2, q2.2, o2.2),
      (p2.3, q2.3, o2.3),
      λ D M k. rw (p2.4 D M k, q2.4 D M k, o2.4 D M k, meaning) refl,
    )
optimize_plan-Optimized (suc fuel) (sort ks p) le =
    let p2 = optimize_plan-Optimized fuel p (omega (arith, le)) in
    (
      sort ks p2.0,
      rw (p2.1, optimize_plan) refl,
      omega (arith, p2.2),
      p2.3,
      λ D M k. rw (p2.4 D M k, meaning) refl,
    )
optimize_plan-Optimized (suc fuel) (limit c p) le =
    let p2 = optimize_plan-Optimized fuel p (omega (arith, le)) in
    (
      limit c p2.0,
      rw (p2.1, optimize_plan) refl,
      omega (arith, p2.2),
      p2.3,
      λ D M k. rw (p2.4 D M k, meaning) refl,
    )
optimize_plan-Optimized (suc fuel) (offset c p) le =
    let p2 = optimize_plan-Optimized fuel p (omega (arith, le)) in
    (
      offset c p2.0,
      rw (p2.1, optimize_plan) refl,
      omega (arith, p2.2),
      p2.3,
      λ D M k. rw (p2.4 D M k, meaning) refl,
    )
optimize_plan-Optimized (suc fuel) (parallel h p) le =
    let p2 = optimize_plan-Optimized fuel p (omega (arith, le)) in
    (
      parallel h p2.0,
      rw (p2.1, optimize_plan) refl,
      omega (arith, p2.2),
      p2.3,
      λ D M k. rw (p2.4 D M k, meaning) refl,
    )
optimize_plan-Optimized (suc fuel) other le = (other, refl, refl, tt, λ D M k. refl)
