-- ===== src/Index/Entries.antt =====
-- crates/rnmdb-index/src/lib.rs: the map from keys to pointers that `MemoryBTreeIndex`,
-- `MemoryHashIndex` and `MemoryCompositeIndex` share. Their `insert`, `merge_from` and
-- `point_lookup` differ in the key type and the messages alone, so the bodies are stated once.
pub mod Insert
pub mod Merge
pub mod Unique
use rnov_modular_db.Base.{
  Bool, true, false, not, ◌&&◌, Option, none, some, List, [], ◌∷◌, ◌++◌, if◌then◌else◌, is_empty,
}
use rnov_modular_db.Common.{Result, ok, err, invalid_input}
use rnov_modular_db.Collections.Order.{TotalOrder}
use rnov_modular_db.Collections.BTreeMap
use rnov_modular_db.Collections.BTreeMap.{BTreeMap}
use rnov_modular_db.Index.Key.{IndexPointer, contains}

abbrev pub Entries {ℓ} : Type ℓ → Type ℓ
Entries K = BTreeMap K (List IndexPointer)

-- `if !pointers.contains(&pointer) { pointers.push(pointer) }`
abbrev pub push_new : IndexPointer → List IndexPointer → List IndexPointer
push_new p ps = if contains ps p then ps else ps ++ p ∷ []

module _ {ℓ} {K : Type ℓ} ⦃o : TotalOrder K⦄ where
  -- `point_lookup`
  abbrev pub point_lookup : K → Entries K → List IndexPointer
  point_lookup k m = elim (BTreeMap.get k m) [ none ↦ [] | some ps ↦ ps ]

  -- `insert`. `entry(key).or_default()` has stored the pointers of the key before the test.
  pub insert_entry : Bool → K → IndexPointer → Entries K → Result (Unit {0}) × Entries K
  insert_entry unique k p m =
      let pointers = point_lookup k m in
      if unique && not (is_empty pointers)
      then (err invalid_input, BTreeMap.insert k pointers m)
      else (ok tt, BTreeMap.insert k (push_new p pointers) m)

-- The pairs that the two loops of `merge_from` visit.
abbrev pub pairs_of {ℓ} : {K : Type ℓ} → K → List IndexPointer → List (K × IndexPointer)
pairs_of k [] = []
pairs_of k (p ∷ ps) = (k, p) ∷ pairs_of k ps

abbrev pub all_pairs {ℓ} : {K : Type ℓ} → Entries K → List (K × IndexPointer)
all_pairs [] = []
all_pairs ((k, ps) ∷ m) = pairs_of k ps ++ all_pairs m

module _ {ℓ} {K : Type ℓ} ⦃o : TotalOrder K⦄ where
  -- The loops of `merge_from`, which stop at the first refusal.
  pub insert_pairs : Bool → List (K × IndexPointer) → Entries K → Result (Unit {0}) × Entries K
  insert_pairs unique [] m = (ok tt, m)
  insert_pairs unique ((k, p) ∷ pairs) m = elim (insert_entry unique k p m).0 [
    | ok _ ↦ insert_pairs unique pairs (insert_entry unique k p m).1
    | err e ↦ (err e, (insert_entry unique k p m).1)
  ]
