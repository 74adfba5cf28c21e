-- ===== src/Sql/Token.antt =====
-- crates/rnmdb-sql/src/lexer.rs: the tokens of SQL and the table of keywords.
-- A text is the list of its code points. A keyword whose name is a word of antt or is too common
-- has `_keyword` behind it.
use Prim.Native.Char.{code}
use Prim.Native.String.{String, [] as empty, ◌∷◌ as ◌followed_by◌}
use rnov_modular_db.Base.{
  ℕ, ◌+◌, Bool, ◌&&◌, Option, none, some, List, [], ◌∷◌, map, if◌then◌else◌, leb, ◌==◌, true, false,
}
use rnov_modular_db.Base.Int.{ℤ}
use rnov_modular_db.Types.Float64.{SqlFloat64}

abbrev pub Text : Type 0
Text = List ℕ

-- the code points of a literal
abbrev pub text : String → List ℕ
text empty = []
text (c followed_by s) = code c ∷ text s

pub data TokenKind : Type 0 where
  select union intersect except with_keyword recursive distinct all_keyword : TokenKind
  as_keyword insert into values update delete set create trigger index unique : TokenKind
  alter drop add column if_keyword exists table after from_keyword join inner : TokenKind
  left_keyword outer lateral where_keyword group grouping sets rollup cube : TokenKind
  over having order by_keyword asc desc nulls first last limit offset fetch : TokenKind
  next row rows only function procedure returns operator_keyword role grant : TokenKind
  on_keyword to_keyword policy using execute call begin_keyword commit : TokenKind
  rollback and_keyword or_keyword not_keyword case_keyword when then_keyword : TokenKind
  else_keyword end_keyword is_keyword between in_keyword like null : TokenKind
  true_keyword false_keyword unknown encrypted references generated always : TokenKind
  stored explain analyze : TokenKind
  identifier : Text → TokenKind
  integer : ℤ → TokenKind
  float64 : SqlFloat64 → TokenKind
  string : Text → TokenKind
  operator : Text → TokenKind
  comma dot semicolon star left_paren right_paren left_bracket right_bracket : TokenKind

-- `KEYWORDS`
abbrev pub keywords : List (Text × TokenKind)
keywords =
    (text "select", select)
    ∷ (text "union", union)
    ∷ (text "intersect", intersect)
    ∷ (text "except", except)
    ∷ (text "with", with_keyword)
    ∷ (text "recursive", recursive)
    ∷ (text "distinct", distinct)
    ∷ (text "all", all_keyword)
    ∷ (text "as", as_keyword)
    ∷ (text "insert", insert)
    ∷ (text "into", into)
    ∷ (text "values", values)
    ∷ (text "update", update)
    ∷ (text "delete", delete)
    ∷ (text "set", set)
    ∷ (text "create", create)
    ∷ (text "trigger", trigger)
    ∷ (text "index", index)
    ∷ (text "unique", unique)
    ∷ (text "alter", alter)
    ∷ (text "drop", drop)
    ∷ (text "add", add)
    ∷ (text "column", column)
    ∷ (text "if", if_keyword)
    ∷ (text "exists", exists)
    ∷ (text "table", table)
    ∷ (text "after", after)
    ∷ (text "from", from_keyword)
    ∷ (text "join", join)
    ∷ (text "inner", inner)
    ∷ (text "left", left_keyword)
    ∷ (text "outer", outer)
    ∷ (text "lateral", lateral)
    ∷ (text "where", where_keyword)
    ∷ (text "group", group)
    ∷ (text "grouping", grouping)
    ∷ (text "sets", sets)
    ∷ (text "rollup", rollup)
    ∷ (text "cube", cube)
    ∷ (text "over", over)
    ∷ (text "having", having)
    ∷ (text "order", order)
    ∷ (text "by", by_keyword)
    ∷ (text "asc", asc)
    ∷ (text "desc", desc)
    ∷ (text "nulls", nulls)
    ∷ (text "first", first)
    ∷ (text "last", last)
    ∷ (text "limit", limit)
    ∷ (text "offset", offset)
    ∷ (text "fetch", fetch)
    ∷ (text "next", next)
    ∷ (text "row", row)
    ∷ (text "rows", rows)
    ∷ (text "only", only)
    ∷ (text "function", function)
    ∷ (text "procedure", procedure)
    ∷ (text "returns", returns)
    ∷ (text "operator", operator_keyword)
    ∷ (text "role", role)
    ∷ (text "grant", grant)
    ∷ (text "on", on_keyword)
    ∷ (text "to", to_keyword)
    ∷ (text "policy", policy)
    ∷ (text "using", using)
    ∷ (text "execute", execute)
    ∷ (text "call", call)
    ∷ (text "begin", begin_keyword)
    ∷ (text "commit", commit)
    ∷ (text "rollback", rollback)
    ∷ (text "and", and_keyword)
    ∷ (text "or", or_keyword)
    ∷ (text "not", not_keyword)
    ∷ (text "case", case_keyword)
    ∷ (text "when", when)
    ∷ (text "then", then_keyword)
    ∷ (text "else", else_keyword)
    ∷ (text "end", end_keyword)
    ∷ (text "is", is_keyword)
    ∷ (text "between", between)
    ∷ (text "in", in_keyword)
    ∷ (text "like", like)
    ∷ (text "null", null)
    ∷ (text "true", true_keyword)
    ∷ (text "false", false_keyword)
    ∷ (text "unknown", unknown)
    ∷ (text "encrypted", encrypted)
    ∷ (text "references", references)
    ∷ (text "generated", generated)
    ∷ (text "always", always)
    ∷ (text "stored", stored)
    ∷ (text "explain", explain)
    ∷ (text "analyze", analyze)
    ∷ []

-- equality of `&str`
unfoldable pub equal_text : Text → Text → Bool
equal_text [] [] = true
equal_text (c ∷ cs) (d ∷ ds) = c == d && equal_text cs ds
equal_text _ _ = false

-- `phf::Map::get`
pub lookup : Text → List (Text × TokenKind) → Option (TokenKind)
lookup word [] = none
lookup word ((key, kind) ∷ rest) = if equal_text word key then some kind else lookup word rest

-- `u8::to_ascii_lowercase`
unfoldable pub to_lower : ℕ → ℕ
to_lower c = if leb b'A' c && leb c b'Z' then c + 32 else c

-- The kind that `lex_identifier_or_keyword` gives to a word.
unfoldable pub word_kind : Text → TokenKind
unfolding lookup equal_text to_lower
word_kind raw =
    let normalized = map to_lower raw in
    elim (lookup normalized keywords) [ some kind ↦ kind | none ↦ identifier normalized ]

pub record Span : Type 0 where
  pub start : ℕ
  pub end : ℕ

pub record Token : Type 0 where
  pub kind : TokenKind
  pub span : Span
