-- ===== src/Planner/Optimizer/Laws.antt =====
-- crates/rnmdb-planner/src/optimizer.rs: the rule optimizer as a whole.
use rnov_modular_db.Base.{ℕ, ◌≤◌, ◌≡◌, some, arith}
use rnov_modular_db.Planner.Logical.{Ast, LogicalPlan}
use rnov_modular_db.Planner.Optimizer.{optimize_plan}
use rnov_modular_db.Planner.Optimizer.Meaning.{Meaning, size, IsPushed}
use rnov_modular_db.Planner.Optimizer.Correct.{optimize_plan-Optimized}
use rnov_modular_db.Planner.Optimizer.Stable.{optimize_plan_unchanged}

-- `optimize_plan` ends: calls as deep as the plan has nodes are enough, whatever the plan, and the
-- answer has as many nodes as the plan.
pub optimize_plan_terminates :
    {A : Ast} (p : LogicalPlan A) (fuel : ℕ)
    → size p ≤ fuel
    → (q : LogicalPlan A) × (optimize_plan fuel p ≡ some q) × (size q ≡ size p)
optimize_plan_terminates p fuel le = let r = optimize_plan-Optimized fuel p le in (r.0, r.1, r.2)

-- In the answer of `optimize_plan` no filter stands on a projection, outside the plans that an
-- `Explain` holds, and optimizing the answer again gives it back.
pub optimize_plan_idempotent :
    {A : Ast} (p : LogicalPlan A) (fuel : ℕ)
    → size p ≤ fuel
    → (q : LogicalPlan A) × (optimize_plan fuel p ≡ some q)
      × IsPushed q
      × (optimize_plan fuel q ≡ some q)
optimize_plan_idempotent p fuel le =
    let r = optimize_plan-Optimized fuel p le in
    (r.0, r.1, r.3, optimize_plan_unchanged fuel r.0 r.3 (omega (arith, r.2, le)))
