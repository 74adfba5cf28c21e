-- ===== src/Planner/Optimizer/Push.antt =====
-- crates/rnmdb-planner/src/optimizer.rs: a filter and its input.
use rnov_modular_db.Base.{
  ℕ, suc, ◌≤◌, ◌≡◌, refl, ap, sym, ◌∙◌, Option, none, some, List, arith, inl, inr, ◌⊎◌,
}
use rnov_modular_db.Planner.Logical.{
  Ast, ProjectionItem, LogicalPlan, aggregate, distinct, except, exists_subquery_filter, filter,
  grouped_aggregate, grouping_sets_aggregate, hash_join, in_subquery_filter, intersect, limit,
  nested_loop_join, offset, parallel, project, recursive_cte, sideways_lookup, sort, union, window,
}
use rnov_modular_db.Base.Partial.{◌>>=◌}
use rnov_modular_db.Planner.Optimizer.{as_project, push_filter, optimize_plan}
use rnov_modular_db.Planner.Optimizer.Meaning.{Meaning, meaning, FilterCommutes, size, IsPushed}

-- The answer is a plan of the same size and meaning in which no filter stands on a projection.
abbrev pub Optimized : {A : Ast} → LogicalPlan A → Option (LogicalPlan A) → Type 1
Optimized {A} p answer =
    (q : LogicalPlan A) × (answer ≡ some q)
    × (size q ≡ size p)
    × IsPushed q
    × ((D : Type 0) (M : Meaning A D) → FilterCommutes M → meaning M q ≡ meaning M p)

pub size_pos : {A : Ast} (p : LogicalPlan A) → 1 ≤ size p
unfolding size
size_pos (filter e p) = omega arith
size_pos (in_subquery_filter e s n p) = omega arith
size_pos (exists_subquery_filter s n p) = omega arith
size_pos (sideways_lookup p r t c d) = omega arith
size_pos (nested_loop_join k p q e) = omega arith
size_pos (hash_join k p q c d) = omega arith
size_pos (project is p) = omega arith
size_pos (window is p) = omega arith
size_pos (aggregate is p) = omega arith
size_pos (grouped_aggregate g is p) = omega arith
size_pos (grouping_sets_aggregate g gs is p) = omega arith
size_pos (distinct p) = omega arith
size_pos (union b p q) = omega arith
size_pos (intersect b p q) = omega arith
size_pos (except b p q) = omega arith
size_pos (recursive_cte x cs p q o) = omega arith
size_pos (sort ks p) = omega arith
size_pos (limit c p) = omega arith
size_pos (offset c p) = omega arith
size_pos (parallel h p) = omega arith
size_pos other = omega arith

as_project-cases :
    {A : Ast} (p : LogicalPlan A)
    → ((is : List (ProjectionItem A)) × (q : LogicalPlan A) × (p ≡ project is q))
      ⊎ (as_project p ≡ none)
as_project-cases (project is q) = inl (is, q, refl)
as_project-cases other = inr refl

pub push_filter_other :
    {A : Ast} (again : LogicalPlan A → Option (LogicalPlan A)) (e : A.expr) (p : LogicalPlan A)
    → as_project p ≡ none
    → push_filter again e p ≡ some (filter e p)
unfolding push_filter
push_filter_other again e (project is q) h = ground arith
push_filter_other again e other h = refl

push_filter-project :
    {A : Ast} (again : LogicalPlan A → Option (LogicalPlan A)) (e : A.expr)
    (is : List (ProjectionItem A)) (q pushed : LogicalPlan A)
    → again q ≡ some pushed
    → push_filter again e (project is q) ≡ some (project is pushed)
unfolding push_filter
push_filter-project again e is q pushed h = rw (h, push_filter) refl

pub optimize_filter :
    {A : Ast} (fuel : ℕ) (e : A.expr) (p input : LogicalPlan A)
    → optimize_plan fuel p ≡ some input
    → optimize_plan (suc fuel) (filter e p)
      ≡ push_filter (λ q. optimize_plan fuel (filter e q)) e input
unfolding optimize_plan
optimize_filter fuel e p input h =
    ap (λ answer. answer >>= push_filter (λ q. optimize_plan fuel (filter e q)) e) h

-- The case of a filter, from the answers for its input and for the filter below the projection.
pub filter-Optimized :
    {A : Ast} (fuel : ℕ) (e : A.expr) (p : LogicalPlan A)
    → Optimized p (optimize_plan fuel p)
    → size p ≤ fuel
    → ((q : LogicalPlan A)
        → size (filter e q) ≤ fuel
        → Optimized (filter e q) (optimize_plan fuel (filter e q)))
    → Optimized (filter e p) (optimize_plan (suc fuel) (filter e p))
unfolding size IsPushed meaning
filter-Optimized fuel e p r le next = elim (as_project-cases r.0) [
  | inr other ↦ (
    filter e r.0,
    optimize_filter fuel e p r.0 r.1 ∙ push_filter_other _ e r.0 other,
    omega (arith, r.2),
    (r.3, other),
    λ D M k. ap (M.filter_of e) (r.4 D M k),
  )
  | inl (is, q, found) ↦
      let answered = r.1 ∙ ap some found in
      let sized = sym (ap size found) ∙ r.2 in
      let s = next q (omega (arith, sized, le)) in
      (
        project is s.0,
        optimize_filter fuel e p (project is q) answered ∙ push_filter-project _ e is q s.0 s.1,
        omega (arith, s.2, sized),
        s.3,
        λ D M k.
            ap (M.project_of is) (s.4 D M k)
            ∙ k e is (meaning M q)
            ∙ ap (M.filter_of e) (sym (ap (meaning M) found) ∙ r.4 D M k),
      )
]

pub no_fuel : {A : Ast} (p : LogicalPlan A) → size p ≤ 0 → ⊥
no_fuel p h = omega (arith, size_pos p)
