-- ===== src/Planner/Optimizer/Late.antt =====
-- crates/rnmdb-planner/src/optimizer.rs: what a plan means when filters act before the projections
-- that they stand on.
use rnov_modular_db.Base.{◌≡◌, refl, sym, ap, ◌∙◌, none, List, [], ◌∷◌, arith}
use rnov_modular_db.Planner.Logical.{
  Ast, ProjectionItem, LogicalPlan, aggregate, distinct, except, exists_subquery_filter, filter,
  grouped_aggregate, grouping_sets_aggregate, hash_join, in_subquery_filter, intersect, limit,
  nested_loop_join, offset, parallel, project, recursive_cte, sideways_lookup, sort, union, window,
}
use rnov_modular_db.Planner.Optimizer.{as_project}
use rnov_modular_db.Planner.Optimizer.Meaning.{Meaning, meaning, FilterCommutes, IsPushed}

-- A result with the projections that are still to be made of it, the last one first.
abbrev pub Delayed : Ast → Type 0 → Type 0
Delayed A D = List (List (ProjectionItem A)) × D

abbrev pub project_all :
    {A : Ast} {D : Type 0} → Meaning A D → List (List (ProjectionItem A)) → D → D
project_all M [] d = d
project_all M (is ∷ more) d = M.project_of is (project_all M more d)

abbrev pub done : {A : Ast} {D : Type 0} → Meaning A D → Delayed A D → D
done M x = project_all M x.0 x.1

-- The interpretation in which a projection is put off and a filter is not. Every other operation
-- first makes the projections of its inputs. The plan that an `Explain` holds means what it means.
abbrev pub late : {A : Ast} {D : Type 0} → Meaning A D → Meaning A (Delayed A D)
late M = record {
  filter_of = λ e x. (x.0, M.filter_of e x.1);
  in_subquery_filter_of = λ e s n p. ([], M.in_subquery_filter_of e (done M s) n (done M p));
  exists_subquery_filter_of = λ s n p. ([], M.exists_subquery_filter_of (done M s) n (done M p));
  sideways_lookup_of = λ p r t c d. ([], M.sideways_lookup_of (done M p) r t c d);
  nested_loop_join_of = λ k p q e. ([], M.nested_loop_join_of k (done M p) (done M q) e);
  hash_join_of = λ k p q c d. ([], M.hash_join_of k (done M p) (done M q) c d);
  project_of = λ is x. (is ∷ x.0, x.1);
  window_of = λ is p. ([], M.window_of is (done M p));
  aggregate_of = λ is p. ([], M.aggregate_of is (done M p));
  grouped_aggregate_of = λ g is p. ([], M.grouped_aggregate_of g is (done M p));
  grouping_sets_aggregate_of = λ g gs is p. ([], M.grouping_sets_aggregate_of g gs is (done M p));
  distinct_of = λ p. ([], M.distinct_of (done M p));
  union_of = λ b p q. ([], M.union_of b (done M p) (done M q));
  intersect_of = λ b p q. ([], M.intersect_of b (done M p) (done M q));
  except_of = λ b p q. ([], M.except_of b (done M p) (done M q));
  recursive_cte_of = λ x cs p q o. ([], M.recursive_cte_of x cs (done M p) (done M q) (done M o));
  sort_of = λ ks p. ([], M.sort_of ks (done M p));
  limit_of = λ c p. ([], M.limit_of c (done M p));
  offset_of = λ c p. ([], M.offset_of c (done M p));
  parallel_of = λ hint p. ([], M.parallel_of hint (done M p));
  explain_of = λ b f plan p. ([], M.explain_of b f plan (meaning M plan));
  other_of = λ p. ([], M.other_of p);
}

pub late-FilterCommutes : {A : Ast} {D : Type 0} (M : Meaning A D) → FilterCommutes (late M)
late-FilterCommutes M e is x = refl

-- What a plan means with each filter done before the projections that it stands on.
abbrev pub pushed_meaning : {A : Ast} {D : Type 0} → Meaning A D → LogicalPlan A → D
pushed_meaning M p = done M (meaning (late M) p)

-- Where no filter stands on a projection, putting projections off changes nothing.
pub late-IsPushed :
    {A : Ast} {D : Type 0} (M : Meaning A D) (p : LogicalPlan A)
    → IsPushed p
    → (as_project p ≡ none → (meaning (late M) p).0 ≡ []) × (pushed_meaning M p ≡ meaning M p)
unfolding meaning IsPushed
late-IsPushed M (filter e p) h =
    let r = late-IsPushed M p h.0 in
    let x = meaning (late M) p in
    let flat = r.0 h.1 in
    (
      λ _. flat,
      ap (λ s. project_all M s (M.filter_of e x.1)) flat
          ∙ ap (M.filter_of e) (sym (ap (λ s. project_all M s x.1) flat) ∙ r.1),
    )
late-IsPushed M (project is p) h =
    (λ e. ground (arith, e), ap (M.project_of is) (late-IsPushed M p h).1)
late-IsPushed M (in_subquery_filter e s n p) h =
    (λ _. refl, rw ((late-IsPushed M s h.0).1, (late-IsPushed M p h.1).1, meaning) refl)
late-IsPushed M (exists_subquery_filter s n p) h =
    (λ _. refl, rw ((late-IsPushed M s h.0).1, (late-IsPushed M p h.1).1, meaning) refl)
late-IsPushed M (nested_loop_join k p q e) h =
    (λ _. refl, rw ((late-IsPushed M p h.0).1, (late-IsPushed M q h.1).1, meaning) refl)
late-IsPushed M (hash_join k p q c d) h =
    (λ _. refl, rw ((late-IsPushed M p h.0).1, (late-IsPushed M q h.1).1, meaning) refl)
late-IsPushed M (union b p q) h =
    (λ _. refl, rw ((late-IsPushed M p h.0).1, (late-IsPushed M q h.1).1, meaning) refl)
late-IsPushed M (intersect b p q) h =
    (λ _. refl, rw ((late-IsPushed M p h.0).1, (late-IsPushed M q h.1).1, meaning) refl)
late-IsPushed M (except b p q) h =
    (λ _. refl, rw ((late-IsPushed M p h.0).1, (late-IsPushed M q h.1).1, meaning) refl)
late-IsPushed M (sideways_lookup p r t c d) h =
    (λ _. refl, rw ((late-IsPushed M p h).1, meaning) refl)
late-IsPushed M (window is p) h = (λ _. refl, rw ((late-IsPushed M p h).1, meaning) refl)
late-IsPushed M (aggregate is p) h = (λ _. refl, rw ((late-IsPushed M p h).1, meaning) refl)
late-IsPushed M (grouped_aggregate g is p) h =
    (λ _. refl, rw ((late-IsPushed M p h).1, meaning) refl)
late-IsPushed M (grouping_sets_aggregate g gs is p) h =
    (λ _. refl, rw ((late-IsPushed M p h).1, meaning) refl)
late-IsPushed M (distinct p) h = (λ _. refl, rw ((late-IsPushed M p h).1, meaning) refl)
late-IsPushed M (sort ks p) h = (λ _. refl, rw ((late-IsPushed M p h).1, meaning) refl)
late-IsPushed M (limit c p) h = (λ _. refl, rw ((late-IsPushed M p h).1, meaning) refl)
late-IsPushed M (offset c p) h = (λ _. refl, rw ((late-IsPushed M p h).1, meaning) refl)
late-IsPushed M (parallel hint p) h = (λ _. refl, rw ((late-IsPushed M p h).1, meaning) refl)
late-IsPushed M (recursive_cte x cs p q o) h = (
  λ _. refl,
  rw ((late-IsPushed M p h.0).1, (late-IsPushed M q h.1).1, (late-IsPushed M o h.2).1, meaning)
      refl,
)
late-IsPushed M other h = (λ _. refl, refl)
