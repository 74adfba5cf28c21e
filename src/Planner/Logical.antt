-- ===== src/Planner/Logical.antt =====
-- crates/rnmdb-planner/src/logical.rs: `LogicalPlan`. The trees of rnmdb-sql that a plan holds are
-- types of `Ast`: the optimizer hands them on unread. Texts are lists of code points.
use rnov_modular_db.Base.{ℕ, Bool, Option, List}
use rnov_modular_db.Sql.Token.{Text}

-- the types of rnmdb-sql and rnmdb-types that stand in plans
pub record Ast : Type 1 where
  pub expr : Type 0
  pub order_by_expr : Type 0
  pub column_def : Type 0
  pub index_key_def : Type 0
  pub sql_type : Type 0
  pub create_function_implementation : Type 0

pub data JoinKind : Type 0 where
  inner left : JoinKind

pub data ExplainFormat : Type 0 where
  logical costs physical : ExplainFormat

pub data IndexMethod : Type 0 where
  b_tree hash gin gist brin : IndexMethod

pub data TriggerTiming : Type 0 where
  after : TriggerTiming

pub data TriggerEvent : Type 0 where
  insert update delete : TriggerEvent

pub record ProjectionItem (A : Ast) : Type 0 where
  pub name : Text
  pub expr : A.expr

pub data WindowFunction (A : Ast) : Type 0 where
  row_number : List A.order_by_expr → WindowFunction A
  rank : List A.order_by_expr → WindowFunction A
  dense_rank : List A.order_by_expr → WindowFunction A

pub record WindowItem (A : Ast) : Type 0 where
  pub name : Text
  pub function : WindowFunction A

pub data AggregateFunction (A : Ast) : Type 0 where
  count_star : AggregateFunction A
  count : A.expr → AggregateFunction A
  count_distinct : A.expr → AggregateFunction A
  sum : A.expr → AggregateFunction A
  min : A.expr → AggregateFunction A
  max : A.expr → AggregateFunction A

pub record AggregateItem (A : Ast) : Type 0 where
  pub name : Text
  pub function : AggregateFunction A

pub data GroupedAggregateItemKind (A : Ast) : Type 0 where
  group_key : A.expr → GroupedAggregateItemKind A
  aggregate_of : AggregateFunction A → GroupedAggregateItemKind A

pub record GroupedAggregateItem (A : Ast) : Type 0 where
  pub name : Text
  pub kind : GroupedAggregateItemKind A

pub record TextSearchCostHint : Type 0 where
  pub required_terms : List Text
  pub optional_terms : List Text
  pub excluded_terms : List Text

pub record ParallelPlanHint : Type 0 where
  pub workers : ℕ
  pub reason : Text

-- The arguments stand in the order of the source's fields.
pub data LogicalPlan (A : Ast) : Type 0 where
  scan : ℕ → Text → LogicalPlan A
  recursive_scan : Text → List Text → LogicalPlan A
  filter : A.expr → LogicalPlan A → LogicalPlan A
  in_subquery_filter : A.expr → LogicalPlan A → Bool → LogicalPlan A → LogicalPlan A
  exists_subquery_filter : LogicalPlan A → Bool → LogicalPlan A → LogicalPlan A
  text_search : ℕ → Text → Text → Text → TextSearchCostHint → LogicalPlan A
  sideways_lookup : LogicalPlan A → ℕ → Text → Text → Text → LogicalPlan A
  nested_loop_join : JoinKind → LogicalPlan A → LogicalPlan A → A.expr → LogicalPlan A
  hash_join : JoinKind → LogicalPlan A → LogicalPlan A → Text → Text → LogicalPlan A
  project : List (ProjectionItem A) → LogicalPlan A → LogicalPlan A
  window : List (WindowItem A) → LogicalPlan A → LogicalPlan A
  aggregate : List (AggregateItem A) → LogicalPlan A → LogicalPlan A
  grouped_aggregate : List A.expr → List (GroupedAggregateItem A) → LogicalPlan A → LogicalPlan A
  grouping_sets_aggregate :
      List A.expr
      → List (List A.expr)
      → List (GroupedAggregateItem A)
      → LogicalPlan A
      → LogicalPlan A
  distinct : LogicalPlan A → LogicalPlan A
  union : Bool → LogicalPlan A → LogicalPlan A → LogicalPlan A
  intersect : Bool → LogicalPlan A → LogicalPlan A → LogicalPlan A
  except : Bool → LogicalPlan A → LogicalPlan A → LogicalPlan A
  recursive_cte : Text → List Text → LogicalPlan A → LogicalPlan A → LogicalPlan A → LogicalPlan A
  sort : List A.order_by_expr → LogicalPlan A → LogicalPlan A
  limit : ℕ → LogicalPlan A → LogicalPlan A
  offset : ℕ → LogicalPlan A → LogicalPlan A
  insert_rows :
      ℕ → Text → List Text → List A.expr → List Text → List A.expr → List A.expr → LogicalPlan A
  update_rows :
      ℕ
      → Text
      → (List (Text × A.expr))
      → Option A.expr
      → List Text
      → List A.expr
      → List A.expr
      → LogicalPlan A
  delete_rows : ℕ → Text → Option A.expr → List Text → List A.expr → List A.expr → LogicalPlan A
  create_table : Text → List A.column_def → Bool → LogicalPlan A
  create_index : Text → ℕ → Text → List A.index_key_def → IndexMethod → Bool → Bool → LogicalPlan A
  create_trigger : Text → ℕ → Text → TriggerTiming → TriggerEvent → Text → Bool → LogicalPlan A
  alter_table_add_column : ℕ → Text → A.column_def → Bool → LogicalPlan A
  alter_column_encryption : ℕ → Text → Text → Bool → LogicalPlan A
  drop_table : Option ℕ → Text → Bool → LogicalPlan A
  drop_index : Text → Bool → LogicalPlan A
  drop_trigger : Text → ℕ → Text → Bool → LogicalPlan A
  drop_function : Text → List A.sql_type → Bool → LogicalPlan A
  drop_procedure : Text → List A.sql_type → Bool → LogicalPlan A
  drop_operator : Text → A.sql_type → A.sql_type → Bool → LogicalPlan A
  drop_role : Text → Bool → LogicalPlan A
  drop_policy : Text → ℕ → Bool → LogicalPlan A
  create_function :
      Text → List A.sql_type → A.sql_type → A.create_function_implementation → Bool → LogicalPlan A
  create_procedure : Text → List A.sql_type → Text → Bool → LogicalPlan A
  create_operator :
      Text
      → A.sql_type
      → A.sql_type
      → A.sql_type
      → ℕ
      → Option ℕ
      → Option Text
      → Option Text
      → Option ℕ
      → LogicalPlan A
  create_role : Text → Bool → LogicalPlan A
  create_policy : Text → ℕ → Text → Bool → LogicalPlan A
  grant_table_privilege : ℕ → ℕ → Text → LogicalPlan A
  grant_procedure_privilege : ℕ → ℕ → Text → LogicalPlan A
  call_procedure : Text → Text → List A.expr → LogicalPlan A
  transaction : Text → LogicalPlan A
  explain : Bool → ExplainFormat → LogicalPlan A → LogicalPlan A
  parallel : ParallelPlanHint → LogicalPlan A → LogicalPlan A
