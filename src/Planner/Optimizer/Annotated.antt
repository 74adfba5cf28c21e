-- ===== src/Planner/Optimizer/Annotated.antt =====
-- crates/rnmdb-planner/src/optimizer.rs: what `annotate_parallel` returns.
use rnov_modular_db.Base.{ℕ, ◌<◌, ◌≡◌, refl, Bool, false, Option, some, arith, ◌==◌}
use rnov_modular_db.Planner.Logical.{
  text_search, Ast, ExplainFormat, ParallelPlanHint, LogicalPlan, aggregate, distinct, except,
  exists_subquery_filter, explain, filter, grouped_aggregate, grouping_sets_aggregate, hash_join,
  in_subquery_filter, intersect, limit, nested_loop_join, offset, parallel, project, recursive_cte,
  scan, sideways_lookup, sort, union, window,
}
use rnov_modular_db.Sql.Token.{text}
use rnov_modular_db.Planner.Optimizer.{hint_new, parallel_read, annotate_parallel}
use rnov_modular_db.Planner.Optimizer.Meaning.{Meaning, meaning}

-- Running a plan in parallel gives what running it gives, and an `Explain` does not show the marks
-- for parallel runs.
abbrev pub IsTransparent : {A : Ast} {D : Type 0} → Meaning A D → Type 0
IsTransparent {A} {D} M =
    ((h : ParallelPlanHint) (d : D) → M.parallel_of h d ≡ d)
    × ((b : Bool) (f : ExplainFormat) (p q : LogicalPlan A) (d : D)
        → M.explain_of b f p d ≡ M.explain_of b f q d)

abbrev pub Annotated : {A : Ast} → LogicalPlan A → Option (LogicalPlan A) → Type 1
Annotated {A} p answer =
    (q : LogicalPlan A) × (answer ≡ some q)
    × ((D : Type 0) (M : Meaning A D) → IsTransparent M → meaning M q ≡ meaning M p)

abbrev pub read_hint : ℕ → ParallelPlanHint
read_hint workers = record { workers = workers; reason = text "parallel read candidate" }

not_zero : (n : ℕ) → 0 < n → (n == 0) ≡ false
not_zero n h = ground arith

parallel_read-some :
    {A : Ast} (workers : ℕ) (p : LogicalPlan A)
    → 0 < workers
    → parallel_read workers p ≡ some (parallel (read_hint workers) p)
unfolding parallel_read hint_new
parallel_read-some workers p h = rw (not_zero workers h, parallel_read, hint_new) refl

pub annotate_parallel-Annotated :
    {A : Ast} (workers : ℕ) (p : LogicalPlan A)
    → 0 < workers
    → Annotated p (annotate_parallel workers p)
unfolding annotate_parallel meaning
annotate_parallel-Annotated workers (scan r t) lt =
    (_, parallel_read-some workers (scan r t) lt, λ D M k. k.0 _ _)
annotate_parallel-Annotated workers (text_search r t c q h) lt =
    (_, parallel_read-some workers (text_search r t c q h) lt, λ D M k. k.0 _ _)
annotate_parallel-Annotated workers (filter e p) lt =
    let p2 = annotate_parallel-Annotated workers p lt in
    (filter e p2.0, rw (p2.1, annotate_parallel) refl, λ D M k. rw (p2.2 D M k, meaning) refl)
annotate_parallel-Annotated workers (in_subquery_filter e s n p) lt =
    let s2 = annotate_parallel-Annotated workers s lt in
    let p2 = annotate_parallel-Annotated workers p lt in
    (
      in_subquery_filter e s2.0 n p2.0,
      rw (s2.1, p2.1, annotate_parallel) refl,
      λ D M k. rw (s2.2 D M k, p2.2 D M k, meaning) refl,
    )
annotate_parallel-Annotated workers (exists_subquery_filter s n p) lt =
    let s2 = annotate_parallel-Annotated workers s lt in
    let p2 = annotate_parallel-Annotated workers p lt in
    (
      exists_subquery_filter s2.0 n p2.0,
      rw (s2.1, p2.1, annotate_parallel) refl,
      λ D M k. rw (s2.2 D M k, p2.2 D M k, meaning) refl,
    )
annotate_parallel-Annotated workers (sideways_lookup p r t c d) lt =
    let p2 = annotate_parallel-Annotated workers p lt in
    (
      sideways_lookup p2.0 r t c d,
      rw (p2.1, annotate_parallel) refl,
      λ D M k. rw (p2.2 D M k, meaning) refl,
    )
annotate_parallel-Annotated workers (nested_loop_join k p q e) lt =
    let p2 = annotate_parallel-Annotated workers p lt in
    let q2 = annotate_parallel-Annotated workers q lt in
    (
      nested_loop_join k p2.0 q2.0 e,
      rw (p2.1, q2.1, annotate_parallel) refl,
      λ D M k. rw (p2.2 D M k, q2.2 D M k, meaning) refl,
    )
annotate_parallel-Annotated workers (hash_join k p q c d) lt =
    let p2 = annotate_parallel-Annotated workers p lt in
    let q2 = annotate_parallel-Annotated workers q lt in
    (
      hash_join k p2.0 q2.0 c d,
      rw (p2.1, q2.1, annotate_parallel) refl,
      λ D M k. rw (p2.2 D M k, q2.2 D M k, meaning) refl,
    )
annotate_parallel-Annotated workers (project is p) lt =
    let p2 = annotate_parallel-Annotated workers p lt in
    (project is p2.0, rw (p2.1, annotate_parallel) refl, λ D M k. rw (p2.2 D M k, meaning) refl)
annotate_parallel-Annotated workers (window is p) lt =
    let p2 = annotate_parallel-Annotated workers p lt in
    (window is p2.0, rw (p2.1, annotate_parallel) refl, λ D M k. rw (p2.2 D M k, meaning) refl)
annotate_parallel-Annotated workers (aggregate is p) lt =
    let p2 = annotate_parallel-Annotated workers p lt in
    (aggregate is p2.0, rw (p2.1, annotate_parallel) refl, λ D M k. rw (p2.2 D M k, meaning) refl)
annotate_parallel-Annotated workers (grouped_aggregate g is p) lt =
    let p2 = annotate_parallel-Annotated workers p lt in
    (
      grouped_aggregate g is p2.0,
      rw (p2.1, annotate_parallel) refl,
      λ D M k. rw (p2.2 D M k, meaning) refl,
    )
annotate_parallel-Annotated workers (grouping_sets_aggregate g gs is p) lt =
    let p2 = annotate_parallel-Annotated workers p lt in
    (
      grouping_sets_aggregate g gs is p2.0,
      rw (p2.1, annotate_parallel) refl,
      λ D M k. rw (p2.2 D M k, meaning) refl,
    )
annotate_parallel-Annotated workers (distinct p) lt =
    let p2 = annotate_parallel-Annotated workers p lt in
    (distinct p2.0, rw (p2.1, annotate_parallel) refl, λ D M k. rw (p2.2 D M k, meaning) refl)
annotate_parallel-Annotated workers (union b p q) lt =
    let p2 = annotate_parallel-Annotated workers p lt in
    let q2 = annotate_parallel-Annotated workers q lt in
    (
      union b p2.0 q2.0,
      rw (p2.1, q2.1, annotate_parallel) refl,
      λ D M k. rw (p2.2 D M k, q2.2 D M k, meaning) refl,
    )
annotate_parallel-Annotated workers (intersect b p q) lt =
    let p2 = annotate_parallel-Annotated workers p lt in
    let q2 = annotate_parallel-Annotated workers q lt in
    (
      intersect b p2.0 q2.0,
      rw (p2.1, q2.1, annotate_parallel) refl,
      λ D M k. rw (p2.2 D M k, q2.2 D M k, meaning) refl,
    )
annotate_parallel-Annotated workers (except b p q) lt =
    let p2 = annotate_parallel-Annotated workers p lt in
    let q2 = annotate_parallel-Annotated workers q lt in
    (
      except b p2.0 q2.0,
      rw (p2.1, q2.1, annotate_parallel) refl,
      λ D M k. rw (p2.2 D M k, q2.2 D M k, meaning) refl,
    )
annotate_parallel-Annotated workers (recursive_cte x cs p q o) lt =
    let p2 = annotate_parallel-Annotated workers p lt in
    (
      recursive_cte x cs p2.0 q o,
      rw (p2.1, annotate_parallel) refl,
      λ D M k. rw (p2.2 D M k, meaning) refl,
    )
annotate_parallel-Annotated workers (sort ks p) lt =
    let p2 = annotate_parallel-Annotated workers p lt in
    (sort ks p2.0, rw (p2.1, annotate_parallel) refl, λ D M k. rw (p2.2 D M k, meaning) refl)
annotate_parallel-Annotated workers (limit c p) lt =
    let p2 = annotate_parallel-Annotated workers p lt in
    (limit c p2.0, rw (p2.1, annotate_parallel) refl, λ D M k. rw (p2.2 D M k, meaning) refl)
annotate_parallel-Annotated workers (offset c p) lt =
    let p2 = annotate_parallel-Annotated workers p lt in
    (offset c p2.0, rw (p2.1, annotate_parallel) refl, λ D M k. rw (p2.2 D M k, meaning) refl)
annotate_parallel-Annotated workers (explain b f p) lt =
    let p2 = annotate_parallel-Annotated workers p lt in
    (
      explain b f p2.0,
      rw (p2.1, annotate_parallel) refl,
      λ D M k. rw (p2.2 D M k, meaning) (k.1 b f p2.0 p (meaning M p)),
    )
annotate_parallel-Annotated workers (parallel h p) lt =
    let p2 = annotate_parallel-Annotated workers p lt in
    (parallel h p2.0, rw (p2.1, annotate_parallel) refl, λ D M k. rw (p2.2 D M k, meaning) refl)
annotate_parallel-Annotated workers other lt = (other, refl, λ D M k. refl)
