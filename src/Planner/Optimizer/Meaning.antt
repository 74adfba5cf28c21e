-- ===== src/Planner/Optimizer/Meaning.antt =====
-- crates/rnmdb-planner/src/optimizer.rs: what a plan means, its size, and the plans that no rule
-- changes.
use rnov_modular_db.Base.{ℕ, ◌+◌, ◌≡◌, Bool, none, List}
use rnov_modular_db.Planner.Logical.{
  Ast, JoinKind, ExplainFormat, ProjectionItem, WindowItem, AggregateItem, GroupedAggregateItem,
  ParallelPlanHint, LogicalPlan, aggregate, distinct, except, exists_subquery_filter, explain,
  filter, grouped_aggregate, grouping_sets_aggregate, hash_join, in_subquery_filter, intersect,
  limit, nested_loop_join, offset, parallel, project, recursive_cte, sideways_lookup, sort, union,
  window,
}
use rnov_modular_db.Sql.Token.{Text}
use rnov_modular_db.Planner.Optimizer.{as_project}

-- An interpretation of plans by results of type `D`: an operation for each node whose inputs the
-- passes change, and the meaning of every other plan as a whole. The operation of an `Explain` is
-- given the plan that it holds beside what this means.
pub record Meaning (A : Ast) (D : Type 0) : Type 0 where
  pub filter_of : A.expr → D → D
  pub in_subquery_filter_of : A.expr → D → Bool → D → D
  pub exists_subquery_filter_of : D → Bool → D → D
  pub sideways_lookup_of : D → ℕ → Text → Text → Text → D
  pub nested_loop_join_of : JoinKind → D → D → A.expr → D
  pub hash_join_of : JoinKind → D → D → Text → Text → D
  pub project_of : List (ProjectionItem A) → D → D
  pub window_of : List (WindowItem A) → D → D
  pub aggregate_of : List (AggregateItem A) → D → D
  pub grouped_aggregate_of : List A.expr → List (GroupedAggregateItem A) → D → D
  pub grouping_sets_aggregate_of :
      List A.expr → List (List A.expr) → List (GroupedAggregateItem A) → D → D
  pub distinct_of : D → D
  pub union_of : Bool → D → D → D
  pub intersect_of : Bool → D → D → D
  pub except_of : Bool → D → D → D
  pub recursive_cte_of : Text → List Text → D → D → D → D
  pub sort_of : List A.order_by_expr → D → D
  pub limit_of : ℕ → D → D
  pub offset_of : ℕ → D → D
  pub parallel_of : ParallelPlanHint → D → D
  pub explain_of : Bool → ExplainFormat → LogicalPlan A → D → D
  pub other_of : LogicalPlan A → D

unfoldable pub meaning : {A : Ast} {D : Type 0} → Meaning A D → LogicalPlan A → D
meaning M (filter e p) = M.filter_of e (meaning M p)
meaning M (in_subquery_filter e s n p) = M.in_subquery_filter_of e (meaning M s) n (meaning M p)
meaning M (exists_subquery_filter s n p) = M.exists_subquery_filter_of (meaning M s) n (meaning M p)
meaning M (sideways_lookup p r t c d) = M.sideways_lookup_of (meaning M p) r t c d
meaning M (nested_loop_join k p q e) = M.nested_loop_join_of k (meaning M p) (meaning M q) e
meaning M (hash_join k p q c d) = M.hash_join_of k (meaning M p) (meaning M q) c d
meaning M (project is p) = M.project_of is (meaning M p)
meaning M (window is p) = M.window_of is (meaning M p)
meaning M (aggregate is p) = M.aggregate_of is (meaning M p)
meaning M (grouped_aggregate g is p) = M.grouped_aggregate_of g is (meaning M p)
meaning M (grouping_sets_aggregate g gs is p) = M.grouping_sets_aggregate_of g gs is (meaning M p)
meaning M (distinct p) = M.distinct_of (meaning M p)
meaning M (union b p q) = M.union_of b (meaning M p) (meaning M q)
meaning M (intersect b p q) = M.intersect_of b (meaning M p) (meaning M q)
meaning M (except b p q) = M.except_of b (meaning M p) (meaning M q)
meaning M (recursive_cte x cs p q o) =
    M.recursive_cte_of x cs (meaning M p) (meaning M q) (meaning M o)
meaning M (sort ks p) = M.sort_of ks (meaning M p)
meaning M (limit c p) = M.limit_of c (meaning M p)
meaning M (offset c p) = M.offset_of c (meaning M p)
meaning M (parallel h p) = M.parallel_of h (meaning M p)
meaning M (explain b f p) = M.explain_of b f p (meaning M p)
meaning M other = M.other_of other

-- A filter may change places with a projection.
abbrev pub FilterCommutes : {A : Ast} {D : Type 0} → Meaning A D → Type 0
FilterCommutes {A} {D} M =
    (e : A.expr) (is : List (ProjectionItem A)) (d : D)
    → M.project_of is (M.filter_of e d) ≡ M.filter_of e (M.project_of is d)

-- the nodes that the optimizer visits
unfoldable pub size : {A : Ast} → LogicalPlan A → ℕ
size (filter e p) = 1 + size p
size (in_subquery_filter e s n p) = 1 + size s + size p
size (exists_subquery_filter s n p) = 1 + size s + size p
size (sideways_lookup p r t c d) = 1 + size p
size (nested_loop_join k p q e) = 1 + size p + size q
size (hash_join k p q c d) = 1 + size p + size q
size (project is p) = 1 + size p
size (window is p) = 1 + size p
size (aggregate is p) = 1 + size p
size (grouped_aggregate g is p) = 1 + size p
size (grouping_sets_aggregate g gs is p) = 1 + size p
size (distinct p) = 1 + size p
size (union b p q) = 1 + size p + size q
size (intersect b p q) = 1 + size p + size q
size (except b p q) = 1 + size p + size q
size (recursive_cte x cs p q o) = 1 + size p + size q + size o
size (sort ks p) = 1 + size p
size (limit c p) = 1 + size p
size (offset c p) = 1 + size p
size (parallel h p) = 1 + size p
size other = 1

-- No filter that the optimizer visits stands on a projection.
unfoldable pub IsPushed : {A : Ast} → LogicalPlan A → Type 0
IsPushed (filter e p) = IsPushed p × (as_project p ≡ none)
IsPushed (in_subquery_filter e s n p) = IsPushed s × IsPushed p
IsPushed (exists_subquery_filter s n p) = IsPushed s × IsPushed p
IsPushed (sideways_lookup p r t c d) = IsPushed p
IsPushed (nested_loop_join k p q e) = IsPushed p × IsPushed q
IsPushed (hash_join k p q c d) = IsPushed p × IsPushed q
IsPushed (project is p) = IsPushed p
IsPushed (window is p) = IsPushed p
IsPushed (aggregate is p) = IsPushed p
IsPushed (grouped_aggregate g is p) = IsPushed p
IsPushed (grouping_sets_aggregate g gs is p) = IsPushed p
IsPushed (distinct p) = IsPushed p
IsPushed (union b p q) = IsPushed p × IsPushed q
IsPushed (intersect b p q) = IsPushed p × IsPushed q
IsPushed (except b p q) = IsPushed p × IsPushed q
IsPushed (recursive_cte x cs p q o) = IsPushed p × IsPushed q × IsPushed o
IsPushed (sort ks p) = IsPushed p
IsPushed (limit c p) = IsPushed p
IsPushed (offset c p) = IsPushed p
IsPushed (parallel h p) = IsPushed p
IsPushed other = Unit
