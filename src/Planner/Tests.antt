-- ===== src/Planner/Tests.antt =====
-- Runs of the optimizer, and uses of its theorems.
use rnov_modular_db.Base.{
  ℕ, ◌≤◌, ◌≡◌, refl, true, some, List, [], ◌∷◌, ◌++◌, map, if◌then◌else◌, ◌==◌, arith,
}
use rnov_modular_db.Sql.Token.{Text, text, equal_text}
use rnov_modular_db.Planner.Logical.{
  Ast, ProjectionItem, LogicalPlan, scan, filter, project, union, parallel,
}
use rnov_modular_db.Planner.Optimizer.{optimize_plan, optimize_parallel}
use rnov_modular_db.Planner.Optimizer.Meaning.{Meaning, meaning, size, IsPushed}
use rnov_modular_db.Planner.Optimizer.Late.{pushed_meaning}
use rnov_modular_db.Planner.Optimizer.Annotated.{read_hint}
use rnov_modular_db.Planner.Optimizer.Laws.{optimize_plan_terminates, optimize_plan_idempotent}

-- an expression is a column, with the value that a predicate asks for
abbrev columns : Ast
columns = record {
  expr = Text × ℕ;
  order_by_expr = ℕ;
  column_def = ℕ;
  index_key_def = ℕ;
  sql_type = ℕ;
  create_function_implementation = ℕ;
}

-- a row is the values of its columns, by their names
abbrev NamedRow : Type 0
NamedRow = List (Text × ℕ)

abbrev value_of : Text → NamedRow → ℕ
value_of name [] = 0
value_of name ((c, v) ∷ row) = if equal_text name c then v else value_of name row

abbrev satisfying : Text × ℕ → List NamedRow → List NamedRow
satisfying e [] = []
satisfying e (row ∷ rows) =
    if value_of e.0 row == e.1 then row ∷ satisfying e rows else satisfying e rows

abbrev taken : List (ProjectionItem columns) → NamedRow → NamedRow
taken [] row = []
taken (item ∷ items) row = (item.name, value_of item.expr.0 row) ∷ taken items row

-- Filters and projections look columns up by name, and the only table has two rows.
abbrev rows : Meaning columns (List NamedRow)
rows = record {
  filter_of = satisfying;
  in_subquery_filter_of = λ e s n p. p;
  exists_subquery_filter_of = λ s n p. p;
  sideways_lookup_of = λ p r t c d. p;
  nested_loop_join_of = λ k p q e. p;
  hash_join_of = λ k p q c d. p;
  project_of = λ items d. map (taken items) d;
  window_of = λ is p. p;
  aggregate_of = λ is p. p;
  grouped_aggregate_of = λ g is p. p;
  grouping_sets_aggregate_of = λ g gs is p. p;
  distinct_of = λ p. p;
  union_of = λ b p q. p ++ q;
  intersect_of = λ b p q. p;
  except_of = λ b p q. p;
  recursive_cte_of = λ x cs p q o. p;
  sort_of = λ ks p. p;
  limit_of = λ c p. p;
  offset_of = λ c p. p;
  parallel_of = λ h p. p;
  explain_of = λ b f plan p. p;
  other_of =
      λ p. ((text "id", 1) ∷ (text "n", 5) ∷ []) ∷ ((text "id", 2) ∷ (text "n", 6) ∷ []) ∷ [];
}

abbrev id_is : ℕ → Text × ℕ
id_is v = (text "id", v)

-- keeps the column `id`
abbrev same_name : List (ProjectionItem columns)
same_name = record { name = text "id"; expr = (text "id", 0) } ∷ []

-- calls the column `n` by the name `id`
abbrev other_name : List (ProjectionItem columns)
other_name = record { name = text "id"; expr = (text "n", 0) } ∷ []

abbrev table : LogicalPlan columns
table = scan 7 (text "t")

-- a filter on a projection, beside a plain read
abbrev plan : LogicalPlan columns
plan = union true (filter (id_is 2) (project same_name (filter (id_is 2) table))) table

plan-size : size plan ≤ 6
unfolding size
plan-size = omega arith

optimize_plan_run :
    optimize_plan 6 plan
    ≡ some (union true (project same_name (filter (id_is 2) (filter (id_is 2) table))) table)
unfolding optimize_plan
optimize_plan_run = refl

optimize_parallel_run :
    optimize_parallel 2 (filter (id_is 2) table) 4
    ≡ some (filter (id_is 2) (parallel (read_hint 4) table))
unfolding optimize_parallel
optimize_parallel_run = refl

optimize_plan_terminates_example :
    (q : LogicalPlan columns) × (optimize_plan 6 plan ≡ some q) × (size q ≡ size plan)
optimize_plan_terminates_example = optimize_plan_terminates plan 6 plan-size

optimize_plan_idempotent_example :
    (q : LogicalPlan columns) × (optimize_plan 6 plan ≡ some q)
    × IsPushed q
    × (optimize_plan 6 q ≡ some q)
optimize_plan_idempotent_example = optimize_plan_idempotent plan 6 plan-size

-- With the name kept, the plan still means what it meant.
meaning_kept :
    pushed_meaning rows (filter (id_is 2) (project same_name table))
    ≡ meaning rows (filter (id_is 2) (project same_name table))
unfolding meaning equal_text
meaning_kept = refl

-- With the name changed, the filter finds another column: it selects no row before, and one after.
meaning_changed :
    (meaning rows (filter (id_is 2) (project other_name table)) ≡ [])
    × (pushed_meaning rows (filter (id_is 2) (project other_name table))
        ≡ ((text "id", 6) ∷ []) ∷ [])
unfolding meaning equal_text
meaning_changed = (refl, refl)
