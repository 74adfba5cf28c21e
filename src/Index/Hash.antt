-- ===== src/Index/Hash.antt =====
-- crates/rnmdb-index/src/lib.rs, `MemoryHashIndex`, which also keeps its entries in a `BTreeMap`.
pub mod Laws
use rnov_modular_db.Base.{ℕ, Bool, not, ◌||◌, List, [], if◌then◌else◌}
use rnov_modular_db.Common.{Result, ok, err, invalid_input}
use rnov_modular_db.Collections.Order.{same, list_order, nat_order}
use rnov_modular_db.Index.Key.{IndexKey, key_order, IndexPointer}
use rnov_modular_db.Index.Entries
use rnov_modular_db.Index.Entries.{Entries}
use rnov_modular_db.Index.BTree.{bool_eq}

pub record MemoryHashIndex : Type 0 where
  pub name : List ℕ
  pub unique : Bool
  pub entries : Entries IndexKey

-- `MemoryHashIndex::new`
abbrev pub new : List ℕ → Bool → MemoryHashIndex
new name unique = record { name = name; unique = unique; entries = [] }

-- `MemoryHashIndex::insert`
pub insert : IndexKey → IndexPointer → MemoryHashIndex → Result (Unit {0}) × MemoryHashIndex
insert key pointer ix =
    let (r, entries') = Entries.insert_entry ix.unique key pointer ix.entries in
    (r, record ix { entries = entries' })

-- `MemoryHashIndex::merge_from`
pub merge_from : MemoryHashIndex → MemoryHashIndex → Result (Unit {0}) × MemoryHashIndex
merge_from other ix =
    if not (same ix.name other.name) || not (bool_eq ix.unique other.unique)
    then (err invalid_input, ix)
    else let (r, entries') =
        Entries.insert_pairs ix.unique (Entries.all_pairs other.entries) ix.entries in
      (r, record ix { entries = entries' })

-- `MemoryHashIndex::point_lookup`
abbrev pub point_lookup : IndexKey → MemoryHashIndex → List IndexPointer
point_lookup key ix = Entries.point_lookup key ix.entries
