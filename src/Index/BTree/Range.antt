-- ===== src/Index/BTree/Range.antt =====
-- Range scans: they never reach the panic of `BTreeMap::range`, and return the pointers in range.
use Prim.Native.Nat.Ordering.{lt, eq, gt}
use rnov_modular_db.Base.{
  ◌≡◌, refl, ◌↔◌, inl, inr, true, false, ◌&&◌, some, List, [], ◌∷◌, In, In-append, Bool-cases,
  arith,
}
use rnov_modular_db.Collections.Order.{same_iff}
use rnov_modular_db.Collections.BTreeMap
use rnov_modular_db.Collections.BTreeMap.{get-Above}
use rnov_modular_db.Index.Key.{IndexKey, key_order, IndexPointer}
use rnov_modular_db.Index.Entries
use rnov_modular_db.Index.Entries.{Entries}
use rnov_modular_db.Index.BTree.{
  MemoryBTreeIndex, Bound, included, excluded, unbounded, range_bounds_are_empty, above, below,
  range_panics, pointers_within, range_scan_bounds,
}

-- What a bound says of a key, by the order alone.
abbrev pub AtLeast : Bound → IndexKey → Type 0
AtLeast (included l) k = ¬ (key_order.cmp k l ≡ lt)
AtLeast (excluded l) k = key_order.cmp l k ≡ lt
AtLeast unbounded k = Unit

abbrev pub AtMost : Bound → IndexKey → Type 0
AtMost (included u) k = ¬ (key_order.cmp u k ≡ lt)
AtMost (excluded u) k = key_order.cmp k u ≡ lt
AtMost unbounded k = Unit

above_iff : (b : Bound) (k : IndexKey) → (above b k ≡ true) ↔ AtLeast b k
above_iff (included l) k = ground (arith, key_order.lt_of_gt l k, key_order.gt_of_lt k l)
above_iff (excluded l) k = ground arith
above_iff unbounded k = ground arith

below_iff : (b : Bound) (k : IndexKey) → (below b k ≡ true) ↔ AtMost b k
below_iff (included u) k = ground (arith, key_order.lt_of_gt k u, key_order.gt_of_lt u k)
below_iff (excluded u) k = ground arith
below_iff unbounded k = ground arith

-- The guard excludes every argument on which `BTreeMap::range` panics.
no_panic :
    (lower upper : Bound)
    → range_bounds_are_empty lower upper ≡ false
    → range_panics lower upper ≡ false
unfolding range_bounds_are_empty range_panics
no_panic (included l) upper h = ground arith
no_panic (excluded l) upper h = ground arith
no_panic unbounded upper h = refl

-- Between two keys in the wrong order there is none, and between equal keys only that key.
between :
    (l u k : IndexKey)
    → ¬ (key_order.cmp k l ≡ lt)
    → ¬ (key_order.cmp u k ≡ lt)
    → ¬ (key_order.cmp l u ≡ gt) × (key_order.cmp l u ≡ eq → (k ≡ l) × (k ≡ u))
between l u k a b = ground (
  arith,
  key_order.lt_of_gt l u,
  key_order.lt_of_gt k l,
  key_order.lt_of_gt u k,
  key_order.eq_of_cmp k l,
  key_order.eq_of_cmp l u,
  key_order.eq_of_cmp u k,
  key_order.lt_trans u l k,
)

not_before : (x y : IndexKey) → key_order.cmp x y ≡ lt → ¬ (key_order.cmp y x ≡ lt)
not_before x y h k = ground (arith, key_order.gt_of_lt x y)

-- Where the guard reports an empty range, no key is in range.
empty_range :
    (lower upper : Bound) (k : IndexKey)
    → range_bounds_are_empty lower upper ≡ true
    → AtLeast lower k
    → AtMost upper k
    → ⊥
unfolding range_bounds_are_empty
empty_range (included l) (included u) k h a b =
    ground (arith, between l u k a b, key_order.cmp_refl k)
empty_range (included l) (excluded u) k h a b =
    ground (arith, between l u k a (not_before k u b), key_order.cmp_refl k)
empty_range (excluded l) (included u) k h a b =
    ground (arith, between l u k (not_before l k a) b, key_order.cmp_refl k)
empty_range (excluded l) (excluded u) k h a b =
    ground (arith, between l u k (not_before l k a) (not_before k u b), key_order.cmp_refl k)
empty_range (included l) unbounded k h a b = cc
empty_range (excluded l) unbounded k h a b = cc
empty_range unbounded upper k h a b = cc

-- A pointer of a key in range, for some key.
abbrev pub InRange : Bound → Bound → IndexPointer → Entries IndexKey → Type 0
InRange lower upper p m =
    (k : IndexKey) × AtLeast lower k × AtMost upper k × In p (Entries.point_lookup k m)

-- A range hit among later entries is one of the whole map.
beyond :
    (lower upper : Bound) (p : IndexPointer) (k : IndexKey) (ps : List IndexPointer)
    (m : Entries IndexKey)
    → BTreeMap.Above k m
    → InRange lower upper p m
    → InRange lower upper p ((k, ps) ∷ m)
beyond lower upper p k ps m s (j, a, b, h) =
    (j, a, b, ground (arith, same_iff j k, get-Above k m s))

In-pointers_within :
    (lower upper : Bound) (p : IndexPointer) (m : Entries IndexKey)
    → BTreeMap.IsSorted m
    → In p (pointers_within lower upper m)
    → InRange lower upper p m
unfolding pointers_within
In-pointers_within lower upper p [] s h = absurd h
In-pointers_within lower upper p ((k, ps) ∷ m) s h =
    elim (Bool-cases (above lower k && below upper k)) [
      | inl inside ↦
          elim ((In-append p ps (pointers_within lower upper m)).0
            (rw (inside, pointers_within) at h)) [
              | inl here ↦ (
                k,
                (above_iff lower k).0 (ground arith),
                (below_iff upper k).0 (ground arith),
                ground (arith, same_iff k k),
              )
              | inr later ↦
                  beyond lower upper p k ps m s.0 (In-pointers_within lower upper p m s.1 later)
            ]
      | inr outside ↦
          beyond lower upper p k ps m s.0
            (In-pointers_within lower upper p m s.1 (rw (outside, pointers_within) at h))
    ]

pointers_within_complete :
    (lower upper : Bound) (p : IndexPointer) (k : IndexKey) (m : Entries IndexKey)
    → AtLeast lower k
    → AtMost upper k
    → In p (Entries.point_lookup k m)
    → In p (pointers_within lower upper m)
unfolding pointers_within
pointers_within_complete lower upper p k [] a b h = h
pointers_within_complete lower upper p k ((j, ps) ∷ m) a b h = ground (
  arith,
  pointers_within_complete lower upper p k m a b,
  above_iff lower k,
  below_iff upper k,
  same_iff k j,
  In-append p ps (pointers_within lower upper m),
)

-- A scan returns for all bounds, which excludes the panic of `BTreeMap::range`, and a pointer is
-- among the results exactly if it belongs to a key on the right side of both bounds.
pub range_scan_exact :
    (lower upper : Bound) (ix : MemoryBTreeIndex)
    → BTreeMap.IsSorted ix.entries
    → (ps : List IndexPointer) × (range_scan_bounds lower upper ix ≡ some ps)
      × ((p : IndexPointer) → In p ps ↔ InRange lower upper p ix.entries)
unfolding range_scan_bounds
range_scan_exact lower upper ix s = elim (Bool-cases (range_bounds_are_empty lower upper)) [
  | inl none_in_range ↦ (
    [],
    ground arith,
    λ p. (λ h. absurd h, λ (k, a, b, _). empty_range lower upper k none_in_range a b),
  )
  | inr proper ↦ (
    pointers_within lower upper ix.entries,
    ground (arith, no_panic lower upper proper),
    λ p. (
      In-pointers_within lower upper p ix.entries s,
      λ (k, a, b, h). pointers_within_complete lower upper p k ix.entries a b h,
    ),
  )
]
