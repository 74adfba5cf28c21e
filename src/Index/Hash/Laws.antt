-- ===== src/Index/Hash/Laws.antt =====
-- A hash index agrees with a B-tree index that gets the same calls.
use rnov_modular_db.Base.{◌≡◌, refl, inl, inr, not, ◌||◌, Bool-cases, arith}
use rnov_modular_db.Collections.Order.{same, list_order, nat_order}
use rnov_modular_db.Index.Key.{IndexKey, key_order, IndexPointer}
use rnov_modular_db.Index.BTree
use rnov_modular_db.Index.BTree.{MemoryBTreeIndex, bool_eq}
use rnov_modular_db.Index.Hash.{MemoryHashIndex, insert, merge_from, point_lookup}

-- The B-tree index with the same contents.
abbrev pub as_btree : MemoryHashIndex → MemoryBTreeIndex
as_btree ix = record { name = ix.name; unique = ix.unique; entries = ix.entries }

-- Insertion and merging do to a hash index what they do to a B-tree index with the same contents,
-- with the same answers, and lookups agree.
pub insert-merge_from-as_btree :
    (key : IndexKey) (p : IndexPointer) (other ix : MemoryHashIndex)
    → (BTree.insert key p (as_btree ix) ≡ ((insert key p ix).0, as_btree (insert key p ix).1))
      × (BTree.merge_from (as_btree other) (as_btree ix)
          ≡ ((merge_from other ix).0, as_btree (merge_from other ix).1))
      × (BTree.point_lookup key (as_btree ix) ≡ point_lookup key ix)
unfolding insert merge_from BTree.insert BTree.merge_from
insert-merge_from-as_btree key p other ix = (
  refl,
  elim (Bool-cases (not (same ix.name other.name) || not (bool_eq ix.unique other.unique))) [
    | inl refused ↦ ground (arith, refused)
    | inr fits ↦ ground (arith, fits)
  ],
  refl,
)
