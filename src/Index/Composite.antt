-- ===== src/Index/Composite.antt =====
-- crates/rnmdb-index/src/lib.rs, `CompositeIndexKey`, `CompositeKeyPattern` and
-- `MemoryCompositeIndex`. A composite index takes the rank of the first key it is given.
pub mod Laws
use rnov_modular_db.Base.{
  is_empty, ℕ, Bool, true, false, not, ◌&&◌, ◌||◌, Option, none, some, List, [], ◌∷◌, ◌++◌, ◌==◌,
  length, if◌then◌else◌, ap, ◌≡◌,
}
use rnov_modular_db.Common.{Result, ok, err, invalid_input, reject_if, ◌>>◌}
use rnov_modular_db.Collections.Order.{TotalOrder, same, list_order, nat_order, order_by}
use rnov_modular_db.Collections.BTreeMap
use rnov_modular_db.Index.Key.{IndexKey, key_order, IndexPointer}
use rnov_modular_db.Index.Entries
use rnov_modular_db.Index.Entries.{Entries}
use rnov_modular_db.Index.BTree.{bool_eq}

pub record CompositeIndexKey : Type 0 where
  pub parts : List IndexKey

pub parts_injective : (x y : CompositeIndexKey) → x.parts ≡ y.parts → x ≡ y
parts_injective x y e = ap (λ parts. record { parts = parts }) e

-- The derived `Ord`.
instance abbrev pub composite_order : TotalOrder CompositeIndexKey
composite_order = order_by (λ k. k.parts) parts_injective

-- `CompositeIndexKey::new`
pub composite_key : List IndexKey → Result CompositeIndexKey
composite_key parts = reject_if (is_empty parts) invalid_input >> ok (record { parts = parts })

abbrev pub rank_of : CompositeIndexKey → ℕ
rank_of k = length k.parts

pub record CompositeKeyPattern : Type 0 where
  pub parts : List (Option IndexKey)

-- `CompositeKeyPattern::new`
pub pattern_new : List (Option IndexKey) → Result CompositeKeyPattern
pattern_new parts = reject_if (is_empty parts) invalid_input >> ok (record { parts = parts })

-- `CompositeKeyPattern::has_bound_part`, on the parts
abbrev pub any_bound : List (Option IndexKey) → Bool
any_bound [] = false
any_bound (none ∷ parts) = any_bound parts
any_bound (some k ∷ parts) = true

-- `CompositeKeyPattern::matches`: `zip` stops at the shorter of the two.
abbrev pub matches : List (Option IndexKey) → List IndexKey → Bool
matches [] key = true
matches (q ∷ parts) [] = true
matches (none ∷ parts) (k ∷ key) = matches parts key
matches (some j ∷ parts) (k ∷ key) = same j k && matches parts key

pub record MemoryCompositeIndex : Type 0 where
  pub name : List ℕ
  pub unique : Bool
  pub rank : Option ℕ
  pub entries : Entries CompositeIndexKey

-- `MemoryCompositeIndex::new`
abbrev pub new : List ℕ → Bool → MemoryCompositeIndex
new name unique = record { name = name; unique = unique; rank = none; entries = [] }

-- `MemoryCompositeIndex::ensure_rank`, on the field `rank`
abbrev pub ensure_rank : ℕ → Option ℕ → Result (Unit {0}) × Option ℕ
ensure_rank r none = (ok tt, some r)
ensure_rank r (some existing) = (reject_if (not (existing == r)) invalid_input, some existing)

-- `MemoryCompositeIndex::ensure_query_rank`, on the field `rank`
abbrev pub ensure_query_rank : ℕ → Option ℕ → Result (Unit {0})
ensure_query_rank r none = ok tt
ensure_query_rank r (some existing) = reject_if (not (existing == r)) invalid_input

-- `MemoryCompositeIndex::insert`
pub insert :
    CompositeIndexKey
    → IndexPointer
    → MemoryCompositeIndex
    → Result (Unit {0}) × MemoryCompositeIndex
insert key pointer ix =
    let (ranked, rank') = ensure_rank (rank_of key) ix.rank in
    let (r, entries') = Entries.insert_entry ix.unique key pointer ix.entries in
    elim ranked [
      | err e ↦ (err e, record ix { rank = rank' })
      | ok _ ↦ (r, record ix { rank = rank'; entries = entries' })
    ]

-- The loops of `MemoryCompositeIndex::merge_from`.
pub insert_all :
    List (CompositeIndexKey × IndexPointer)
    → MemoryCompositeIndex
    → Result (Unit {0}) × MemoryCompositeIndex
insert_all [] ix = (ok tt, ix)
insert_all ((key, pointer) ∷ pairs) ix = elim (insert key pointer ix).0 [
  | err e ↦ (err e, (insert key pointer ix).1)
  | ok _ ↦ insert_all pairs (insert key pointer ix).1
]

-- `MemoryCompositeIndex::merge_from`
pub merge_from :
    MemoryCompositeIndex → MemoryCompositeIndex → Result (Unit {0}) × MemoryCompositeIndex
merge_from other ix =
    if not (same ix.name other.name) || not (bool_eq ix.unique other.unique)
    then (err invalid_input, ix)
    else insert_all (Entries.all_pairs other.entries) ix

-- `MemoryCompositeIndex::point_lookup`
abbrev pub point_lookup : CompositeIndexKey → MemoryCompositeIndex → List IndexPointer
point_lookup key ix = Entries.point_lookup key ix.entries

-- The iterator of `skip_scan`.
abbrev pub matching : List (Option IndexKey) → Entries CompositeIndexKey → List IndexPointer
matching parts [] = []
matching parts ((k, ps) ∷ m) =
    if matches parts k.parts then ps ++ matching parts m else matching parts m

-- `MemoryCompositeIndex::skip_scan`
pub skip_scan : CompositeKeyPattern → MemoryCompositeIndex → Result (List IndexPointer)
skip_scan pattern' ix =
    reject_if (not (any_bound pattern'.parts)) invalid_input
    >> ensure_query_rank (length pattern'.parts) ix.rank
    >> ok (matching pattern'.parts ix.entries)
