-- ===== src/Index/Summary.antt =====
-- crates/rnmdb-index/src/lib.rs, `BlockRange` and `BlockSummaryIndex`: the smallest and the largest
-- key of every range of pages, by which a range query skips pages.
pub mod Laws
use Prim.Native.Nat.Ordering.{lt, eq, gt}
use rnov_modular_db.Base.{
  ℕ, ◌≤◌, ◌≡◌, refl, ◌↔◌, ◌⊎◌, inl, inr, Bool, true, false, not, ◌&&◌, Option, none, some, List, [],
  ◌∷◌, ◌++◌, In, In-append, ltb, Bool-cases, Option-cases, arith, if◌then◌else◌,
}
use rnov_modular_db.Common.{Result, ok, err, invalid_input, reject_if, ◌>>=◌, ◌>>◌}
use rnov_modular_db.Index.Key.{IndexKey, int64, text, key_order}

pub record BlockRange : Type 0 where
  pub start_page : ℕ
  pub end_page : ℕ

-- `BlockRange::new`
pub block_range : ℕ → ℕ → Result BlockRange
block_range start_page end_page =
    reject_if (ltb end_page start_page) invalid_input
    >> ok (record { start_page = start_page; end_page = end_page })

pub data IndexKeyFamily : Type 0 where
  int64_family text_family : IndexKeyFamily

-- `index_key_family`
abbrev pub family_of : IndexKey → IndexKeyFamily
family_of (int64 a) = int64_family
family_of (text t) = text_family

abbrev pub family_eq : IndexKeyFamily → IndexKeyFamily → Bool
family_eq int64_family int64_family = true
family_eq int64_family text_family = false
family_eq text_family int64_family = false
family_eq text_family text_family = true

-- `ensure_same_key_family`
abbrev pub ensure_same_key_family : IndexKey → IndexKey → Result IndexKeyFamily
ensure_same_key_family left right =
    reject_if (not (family_eq (family_of left) (family_of right))) invalid_input
    >> ok (family_of left)

pub record BlockSummary : Type 0 where
  pub pages : BlockRange
  pub min_key : IndexKey
  pub max_key : IndexKey

pub record BlockSummaryIndex : Type 0 where
  pub name : List ℕ
  pub key_family : Option IndexKeyFamily
  pub summaries : List BlockSummary

-- `BlockSummaryIndex::new`
abbrev pub new : List ℕ → BlockSummaryIndex
new name = record { name = name; key_family = none; summaries = [] }

-- The operator `>` of keys.
abbrev pub exceeds : IndexKey → IndexKey → Bool
exceeds a b = elim (key_order.cmp a b) [ gt ↦ true | _ ↦ false ]

-- `ensure_family`, which stores the family in an index without one, and `ensure_query_family`,
-- which has the same answers and stores nothing.
abbrev pub ensure_family : IndexKeyFamily → Option IndexKeyFamily → Result (Unit {0})
ensure_family f none = ok tt
ensure_family f (some existing) = reject_if (not (family_eq existing f)) invalid_input

abbrev pub family_after : IndexKeyFamily → Option IndexKeyFamily → Option IndexKeyFamily
family_after f none = some f
family_after f (some existing) = some existing

-- `BlockSummaryIndex::insert_summary`
pub insert_summary :
    BlockRange → IndexKey → IndexKey → BlockSummaryIndex → Result (Unit {0}) × BlockSummaryIndex
insert_summary pages min_key max_key ix =
    elim (ensure_same_key_family min_key max_key >>= λ family.
    reject_if (exceeds min_key max_key) invalid_input
    >> ensure_family family ix.key_family
    >> ok family) [
      | err e ↦ (err e, ix)
      | ok family ↦ (
        ok tt,
        record ix {
          key_family = family_after family ix.key_family;
          summaries =
              ix.summaries ++ record { pages = pages; min_key = min_key; max_key = max_key } ∷ [];
        },
      )
    ]

-- The filter of `range_candidates`.
abbrev pub overlaps : IndexKey → IndexKey → BlockSummary → Bool
overlaps lower upper s = not (exceeds lower s.max_key) && not (exceeds s.min_key upper)

abbrev pub candidates : IndexKey → IndexKey → List BlockSummary → List BlockRange
candidates lower upper [] = []
candidates lower upper (s ∷ ss) =
    if overlaps lower upper s
    then s.pages ∷ candidates lower upper ss
    else candidates lower upper ss

-- `BlockSummaryIndex::range_candidates`
pub range_candidates : IndexKey → IndexKey → BlockSummaryIndex → Result (List BlockRange)
range_candidates lower upper ix = ensure_same_key_family lower upper >>= λ family.
    reject_if (exceeds lower upper) invalid_input
    >> ensure_family family ix.key_family
    >> ok (candidates lower upper ix.summaries)
