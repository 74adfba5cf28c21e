-- ===== src/Index/BTree.antt =====
-- crates/rnmdb-index/src/lib.rs, `MemoryBTreeIndex`, and `MemoryHashIndex`, which has the same
-- fields and the same bodies without the scans.
pub mod Range
pub mod Laws
use Prim.Native.Nat.{Ordering}
use Prim.Native.Nat.Ordering.{lt, eq, gt}
use rnov_modular_db.Base.{
  ℕ, Bool, true, false, not, ◌&&◌, ◌||◌, Option, none, some, List, [], ◌∷◌, ◌++◌, if◌then◌else◌,
}
use rnov_modular_db.Common.{Result, ok, err, invalid_input}
use rnov_modular_db.Collections.Order.{same, list_order, nat_order}
use rnov_modular_db.Collections.BTreeMap
use rnov_modular_db.Index.Key.{IndexKey, key_order, IndexPointer}
use rnov_modular_db.Index.Entries
use rnov_modular_db.Index.Entries.{Entries}

pub record MemoryBTreeIndex : Type 0 where
  pub name : List ℕ
  pub unique : Bool
  pub entries : Entries IndexKey

-- `MemoryBTreeIndex::new`, with `unique` and `non_unique` as its two cases
abbrev pub new : List ℕ → Bool → MemoryBTreeIndex
new name unique = record { name = name; unique = unique; entries = [] }

-- `MemoryBTreeIndex::insert`
unfoldable pub insert :
    IndexKey → IndexPointer → MemoryBTreeIndex → Result (Unit {0}) × MemoryBTreeIndex
insert key pointer ix =
    let (r, entries') = Entries.insert_entry ix.unique key pointer ix.entries in
    (r, record ix { entries = entries' })

abbrev pub bool_eq : Bool → Bool → Bool
bool_eq true b = b
bool_eq false b = not b

-- `MemoryBTreeIndex::merge_from`
unfoldable pub merge_from :
    MemoryBTreeIndex → MemoryBTreeIndex → Result (Unit {0}) × MemoryBTreeIndex
merge_from other ix =
    if not (same ix.name other.name) || not (bool_eq ix.unique other.unique)
    then (err invalid_input, ix)
    else let (r, entries') =
        Entries.insert_pairs ix.unique (Entries.all_pairs other.entries) ix.entries in
      (r, record ix { entries = entries' })

-- `MemoryBTreeIndex::point_lookup`
abbrev pub point_lookup : IndexKey → MemoryBTreeIndex → List IndexPointer
point_lookup key ix = Entries.point_lookup key ix.entries

-- `std::ops::Bound`
pub data Bound : Type 0 where
  included excluded : IndexKey → Bound
  unbounded : Bound

abbrev pub bound_key : Bound → Option IndexKey
bound_key (included k) = some k
bound_key (excluded k) = some k
bound_key unbounded = none

abbrev pub excludes_equal_value : Bound → Bool
excludes_equal_value (excluded k) = true
excludes_equal_value (included k) = false
excludes_equal_value unbounded = false

-- The `match` on the order of the two keys.
abbrev pub order_is_empty : Bound → Bound → Ordering → Bool
order_is_empty lower upper gt = true
order_is_empty lower upper eq = excludes_equal_value lower || excludes_equal_value upper
order_is_empty lower upper lt = false

pub range_bounds_are_empty : Bound → Bound → Bool
range_bounds_are_empty lower upper = elim (bound_key lower) [
  | none ↦ false
  | some l ↦ elim (bound_key upper) [
    | none ↦ false
    | some u ↦ order_is_empty lower upper (key_order.cmp l u)
  ]
]

-- A key lies on the right side of a lower and of an upper bound.
abbrev pub above : Bound → IndexKey → Bool
above (included l) k = elim (key_order.cmp l k) [ gt ↦ false | _ ↦ true ]
above (excluded l) k = elim (key_order.cmp l k) [ lt ↦ true | _ ↦ false ]
above unbounded k = true

abbrev pub below : Bound → IndexKey → Bool
below (included u) k = elim (key_order.cmp k u) [ gt ↦ false | _ ↦ true ]
below (excluded u) k = elim (key_order.cmp k u) [ lt ↦ true | _ ↦ false ]
below unbounded k = true

-- `BTreeMap::range` panics where the start lies above the end, or where both exclude one key.
abbrev pub order_panics : Bound → Bound → Ordering → Bool
order_panics lower upper gt = true
order_panics lower upper eq = excludes_equal_value lower && excludes_equal_value upper
order_panics lower upper lt = false

pub range_panics : Bound → Bound → Bool
range_panics lower upper = elim (bound_key lower) [
  | none ↦ false
  | some l ↦ elim (bound_key upper) [
    | none ↦ false
    | some u ↦ order_panics lower upper (key_order.cmp l u)
  ]
]

-- The pointers of the entries in the range, in the order of the keys.
pub pointers_within : Bound → Bound → Entries IndexKey → List IndexPointer
pointers_within lower upper [] = []
pointers_within lower upper ((k, ps) ∷ m) =
    if above lower k && below upper k
    then ps ++ pointers_within lower upper m
    else pointers_within lower upper m

-- `MemoryBTreeIndex::range_scan_bounds`; `none` stands for the panic of `BTreeMap::range`.
pub range_scan_bounds : Bound → Bound → MemoryBTreeIndex → Option (List IndexPointer)
range_scan_bounds lower upper ix =
    if range_bounds_are_empty lower upper
    then some []
    else if range_panics lower upper
    then none
    else some (pointers_within lower upper ix.entries)

-- `MemoryBTreeIndex::range_scan`
pub range_scan : IndexKey → IndexKey → MemoryBTreeIndex → Option (List IndexPointer)
unfolding range_scan_bounds
range_scan lower upper ix = range_scan_bounds (included lower) (included upper) ix
