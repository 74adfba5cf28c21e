-- ===== src/Index/BTree/Laws.antt =====
-- Insertion and merging at the level of the index.
use rnov_modular_db.Base.{
  ◌≢◌, sym, subst, ◌∙◌, [], ◌≡◌, ◌⊎◌, inl, inr, Bool, true, false, ◌↔◌, In, Bool-cases, arith,
}
use rnov_modular_db.Common.{ok, err, invalid_input}
use rnov_modular_db.Collections.Order.{same, same_iff, list_order, nat_order}
use rnov_modular_db.Index.Key.{IndexKey, key_order, IndexPointer}
use rnov_modular_db.Index.Entries
use rnov_modular_db.Index.Entries.Insert.{IsValid, insert_entry-IsValid}
use rnov_modular_db.Index.Entries.Merge.{insert_pairs-IsValid}
use rnov_modular_db.Index.Entries.Unique.{Disjoint, IsUnion, merge_outcome}
use rnov_modular_db.Index.BTree.{MemoryBTreeIndex, insert, merge_from, bool_eq, point_lookup}

-- An insertion and a merge, successful or refused half-way, leave a valid index valid: its keys
-- ascend, no pointer is listed twice for a key, no key is without pointers, and in a unique index
-- no key has two.
pub insert-merge_from-IsValid :
    (key : IndexKey) (p : IndexPointer) (other ix : MemoryBTreeIndex)
    → IsValid ix.unique ix.entries
    → IsValid ix.unique (insert key p ix).1.entries
      × IsValid ix.unique (merge_from other ix).1.entries
unfolding insert merge_from
insert-merge_from-IsValid key p other ix v = (
  insert_entry-IsValid ix.unique key p ix.entries v,
  ground (arith, v, insert_pairs-IsValid ix.unique (Entries.all_pairs other.entries) ix.entries v),
)

bool_eq_iff : (b c : Bool) → (bool_eq b c ≡ true) ↔ (b ≡ c)
bool_eq_iff b c = ground arith

-- A merge with another name or another uniqueness is refused and changes nothing. Otherwise it
-- succeeds if the index is not unique or has no key in common with the other, and each key then has
-- exactly the pointers that it had in one or the other. A unique index that shares a key with the
-- other refuses the merge, and still has what it had.
pub merge_from_outcome :
    (other ix : MemoryBTreeIndex)
    → IsValid other.unique other.entries
    → (((ix.name ≢ other.name) ⊎ (ix.unique ≢ other.unique))
        × (merge_from other ix ≡ (err invalid_input, ix)))
      ⊎ ((ix.name ≡ other.name)
          × (ix.unique ≡ other.unique)
          × ((ix.unique ≡ false) ⊎ Disjoint ix.entries other.entries)
          × ((merge_from other ix).0 ≡ ok tt)
          × IsUnion ix.entries other.entries (merge_from other ix).1.entries)
      ⊎ ((ix.name ≡ other.name)
          × (ix.unique ≡ true)
          × (other.unique ≡ true)
          × ((k : IndexKey) × (point_lookup k ix ≢ []) × (point_lookup k other ≢ []))
          × ((merge_from other ix).0 ≡ err invalid_input)
          × ((k : IndexKey) (p : IndexPointer)
              → In p (point_lookup k ix)
              → In p (point_lookup k (merge_from other ix).1)))
unfolding merge_from
merge_from_outcome other ix v = elim (Bool-cases (same ix.name other.name)) [
  | inr n ↦ ground (arith, same_iff ix.name other.name)
  | inl n ↦ elim (Bool-cases (bool_eq ix.unique other.unique)) [
    | inr u ↦ ground (arith, bool_eq_iff ix.unique other.unique)
    | inl u ↦
        let alike = (bool_eq_iff ix.unique other.unique).0 u in
        rw (n, merge_from, u)
          (elim (merge_outcome ix.unique other.entries ix.entries
            (subst (λ b. IsValid b other.entries) (sym alike) v)) [
              | inl (fits, done, union) ↦
                  inr (inl ((same_iff ix.name other.name).0 n, alike, fits, done, union))
              | inr (one, shared, refused, kept) ↦ inr (
                  inr (
                    (same_iff ix.name other.name).0 n,
                    one,
                    sym alike ∙ one,
                    shared,
                    refused,
                    kept,
                  ))
            ])
  ]
]
