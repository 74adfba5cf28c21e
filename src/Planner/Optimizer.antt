-- ===== src/Planner/Optimizer.antt =====
-- crates/rnmdb-planner/src/optimizer.rs: the rule that moves a filter below a projection, and the
-- marking of reads that workers can share. The fuel of `optimize_plan` bounds the depth of calls.
pub mod Meaning
pub mod Push
pub mod Correct
pub mod Stable
pub mod Annotated
pub mod Late
pub mod Laws
use rnov_modular_db.Base.{
  ℕ, zero, suc, ◌+◌, ◌≤◌, ◌<◌, ◌≡◌, refl, Bool, true, false, Option, none, some, List, arith, inl,
  inr, ◌⊎◌, if◌then◌else◌, leb, ◌==◌,
}
use rnov_modular_db.Base.Partial.{◌>>=◌}
use rnov_modular_db.Common.{Result, ok, err, invalid_input, reject_if, ◌>>◌}
use rnov_modular_db.Sql.Token.{Text, text}
use rnov_modular_db.Planner.Logical.{
  text_search, Ast, JoinKind, ExplainFormat, ProjectionItem, WindowItem, AggregateItem,
  GroupedAggregateItem, ParallelPlanHint, LogicalPlan, aggregate, distinct, except,
  exists_subquery_filter, explain, filter, grouped_aggregate, grouping_sets_aggregate, hash_join,
  in_subquery_filter, intersect, limit, nested_loop_join, offset, parallel, project, recursive_cte,
  scan, sideways_lookup, sort, union, window,
}

-- the plan under a projection, with its items
abbrev pub as_project : {A : Ast} → LogicalPlan A → Option (List (ProjectionItem A) × LogicalPlan A)
as_project (project is p) = some (is, p)
as_project other = none

-- the match on the optimized input of a filter; `again` optimizes the filter on another input
unfoldable pub push_filter :
    {A : Ast}
    → (LogicalPlan A → Option (LogicalPlan A))
    → A.expr
    → LogicalPlan A
    → Option (LogicalPlan A)
push_filter again e (project is p) = do pushed ← again p; some (project is pushed)
push_filter again e input = some (filter e input)

unfoldable pub optimize_plan : {A : Ast} → ℕ → LogicalPlan A → Option (LogicalPlan A)
unfolding push_filter
optimize_plan zero plan = none
optimize_plan (suc fuel) (filter e p) = do
  input ← optimize_plan fuel p
  push_filter (λ q. optimize_plan fuel (filter e q)) e input
optimize_plan (suc fuel) (in_subquery_filter e s n p) = do
  s2 ← optimize_plan fuel s
  p2 ← optimize_plan fuel p
  some (in_subquery_filter e s2 n p2)
optimize_plan (suc fuel) (exists_subquery_filter s n p) = do
  s2 ← optimize_plan fuel s
  p2 ← optimize_plan fuel p
  some (exists_subquery_filter s2 n p2)
optimize_plan (suc fuel) (sideways_lookup p r t c d) = do
  p2 ← optimize_plan fuel p
  some (sideways_lookup p2 r t c d)
optimize_plan (suc fuel) (nested_loop_join k p q e) = do
  p2 ← optimize_plan fuel p
  q2 ← optimize_plan fuel q
  some (nested_loop_join k p2 q2 e)
optimize_plan (suc fuel) (hash_join k p q c d) = do
  p2 ← optimize_plan fuel p
  q2 ← optimize_plan fuel q
  some (hash_join k p2 q2 c d)
optimize_plan (suc fuel) (project is p) = do p2 ← optimize_plan fuel p; some (project is p2)
optimize_plan (suc fuel) (window is p) = do p2 ← optimize_plan fuel p; some (window is p2)
optimize_plan (suc fuel) (aggregate is p) = do p2 ← optimize_plan fuel p; some (aggregate is p2)
optimize_plan (suc fuel) (grouped_aggregate g is p) = do
  p2 ← optimize_plan fuel p
  some (grouped_aggregate g is p2)
optimize_plan (suc fuel) (grouping_sets_aggregate g gs is p) = do
  p2 ← optimize_plan fuel p
  some (grouping_sets_aggregate g gs is p2)
optimize_plan (suc fuel) (distinct p) = do p2 ← optimize_plan fuel p; some (distinct p2)
optimize_plan (suc fuel) (union b p q) = do
  p2 ← optimize_plan fuel p
  q2 ← optimize_plan fuel q
  some (union b p2 q2)
optimize_plan (suc fuel) (intersect b p q) = do
  p2 ← optimize_plan fuel p
  q2 ← optimize_plan fuel q
  some (intersect b p2 q2)
optimize_plan (suc fuel) (except b p q) = do
  p2 ← optimize_plan fuel p
  q2 ← optimize_plan fuel q
  some (except b p2 q2)
optimize_plan (suc fuel) (recursive_cte x cs p q o) = do
  p2 ← optimize_plan fuel p
  q2 ← optimize_plan fuel q
  o2 ← optimize_plan fuel o
  some (recursive_cte x cs p2 q2 o2)
optimize_plan (suc fuel) (sort ks p) = do p2 ← optimize_plan fuel p; some (sort ks p2)
optimize_plan (suc fuel) (limit c p) = do p2 ← optimize_plan fuel p; some (limit c p2)
optimize_plan (suc fuel) (offset c p) = do p2 ← optimize_plan fuel p; some (offset c p2)
optimize_plan (suc fuel) (parallel h p) = do p2 ← optimize_plan fuel p; some (parallel h p2)
optimize_plan (suc fuel) other = some other

-- `ParallelPlanHint::new`
unfoldable pub hint_new : ℕ → Text → Result ParallelPlanHint
hint_new workers reason =
    reject_if (workers == 0) invalid_input >> ok (record { workers = workers; reason = reason })

-- the node above a read; none is the panic of `expect`
unfoldable pub parallel_read : {A : Ast} → ℕ → LogicalPlan A → Option (LogicalPlan A)
unfolding hint_new
parallel_read workers plan = elim (hint_new workers (text "parallel read candidate")) [
  | err e ↦ none
  | ok hint ↦ some (parallel hint plan)
]

unfoldable pub annotate_parallel : {A : Ast} → ℕ → LogicalPlan A → Option (LogicalPlan A)
unfolding parallel_read
annotate_parallel workers (scan r t) = parallel_read workers (scan r t)
annotate_parallel workers (text_search r t c q h) = parallel_read workers (text_search r t c q h)
annotate_parallel workers (filter e p) = do p2 ← annotate_parallel workers p; some (filter e p2)
annotate_parallel workers (in_subquery_filter e s n p) = do
  s2 ← annotate_parallel workers s
  p2 ← annotate_parallel workers p
  some (in_subquery_filter e s2 n p2)
annotate_parallel workers (exists_subquery_filter s n p) = do
  s2 ← annotate_parallel workers s
  p2 ← annotate_parallel workers p
  some (exists_subquery_filter s2 n p2)
annotate_parallel workers (sideways_lookup p r t c d) = do
  p2 ← annotate_parallel workers p
  some (sideways_lookup p2 r t c d)
annotate_parallel workers (nested_loop_join k p q e) = do
  p2 ← annotate_parallel workers p
  q2 ← annotate_parallel workers q
  some (nested_loop_join k p2 q2 e)
annotate_parallel workers (hash_join k p q c d) = do
  p2 ← annotate_parallel workers p
  q2 ← annotate_parallel workers q
  some (hash_join k p2 q2 c d)
annotate_parallel workers (project is p) = do p2 ← annotate_parallel workers p; some (project is p2)
annotate_parallel workers (window is p) = do p2 ← annotate_parallel workers p; some (window is p2)
annotate_parallel workers (aggregate is p) = do
  p2 ← annotate_parallel workers p
  some (aggregate is p2)
annotate_parallel workers (grouped_aggregate g is p) = do
  p2 ← annotate_parallel workers p
  some (grouped_aggregate g is p2)
annotate_parallel workers (grouping_sets_aggregate g gs is p) = do
  p2 ← annotate_parallel workers p
  some (grouping_sets_aggregate g gs is p2)
annotate_parallel workers (distinct p) = do p2 ← annotate_parallel workers p; some (distinct p2)
annotate_parallel workers (union b p q) = do
  p2 ← annotate_parallel workers p
  q2 ← annotate_parallel workers q
  some (union b p2 q2)
annotate_parallel workers (intersect b p q) = do
  p2 ← annotate_parallel workers p
  q2 ← annotate_parallel workers q
  some (intersect b p2 q2)
annotate_parallel workers (except b p q) = do
  p2 ← annotate_parallel workers p
  q2 ← annotate_parallel workers q
  some (except b p2 q2)
annotate_parallel workers (recursive_cte x cs p q o) = do
  p2 ← annotate_parallel workers p
  some (recursive_cte x cs p2 q o)
annotate_parallel workers (sort ks p) = do p2 ← annotate_parallel workers p; some (sort ks p2)
annotate_parallel workers (limit c p) = do p2 ← annotate_parallel workers p; some (limit c p2)
annotate_parallel workers (offset c p) = do p2 ← annotate_parallel workers p; some (offset c p2)
annotate_parallel workers (explain b f p) = do
  p2 ← annotate_parallel workers p
  some (explain b f p2)
annotate_parallel workers (parallel h p) = do p2 ← annotate_parallel workers p; some (parallel h p2)
annotate_parallel workers other = some other

-- `RuleOptimizer::optimize_parallel`, with the fuel of `optimize_plan`
unfoldable pub optimize_parallel : {A : Ast} → ℕ → LogicalPlan A → ℕ → Option (LogicalPlan A)
unfolding optimize_plan annotate_parallel
optimize_parallel fuel plan workers = do
  optimized ← optimize_plan fuel plan
  if leb workers 1 then some optimized else annotate_parallel workers optimized
