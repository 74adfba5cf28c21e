-- ===== src/Index/Composite/Laws.antt =====
-- The rank of a composite index, and what a skip scan returns.
use rnov_modular_db.Base.{
  ℕ, ◌≡◌, ◌≢◌, refl, ◌↔◌, ◌⊎◌, inl, inr, Bool, true, false, Option, none, some, List, [], ◌∷◌, In,
  In-append, length, Bool-cases, Option-cases, arith, ◌==◌,
}
use rnov_modular_db.Common.{ok, err, invalid_input, Result-cases}
use rnov_modular_db.Collections.Order.{same_iff}
use rnov_modular_db.Collections.BTreeMap
use rnov_modular_db.Collections.BTreeMap.{get-Above}
use rnov_modular_db.Index.Key.{IndexKey, key_order, IndexPointer}
use rnov_modular_db.Index.Entries
use rnov_modular_db.Index.Entries.{Entries, push_new}
use rnov_modular_db.Index.Entries.Insert.{IsValid, insert_entry-IsValid, insert_entry_stores}
use rnov_modular_db.Index.Composite.{
  CompositeIndexKey, composite_order, rank_of, CompositeKeyPattern, any_bound, matches,
  MemoryCompositeIndex, insert, insert_all, merge_from, matching, skip_scan,
}

-- All keys have `r` parts.
abbrev pub AllOfRank : ℕ → Entries CompositeIndexKey → Type 0
AllOfRank r [] = Unit
AllOfRank r ((k, ps) ∷ m) = (rank_of k ≡ r) × AllOfRank r m

-- The keys have the rank of the index, and an index without a rank has no key.
abbrev pub HasRank : Option ℕ → Entries CompositeIndexKey → Type 0
HasRank none m = m ≡ []
HasRank (some r) m = AllOfRank r m

AllOfRank-insert :
    (r : ℕ) (k : CompositeIndexKey) (ps : List IndexPointer) (m : Entries CompositeIndexKey)
    → rank_of k ≡ r
    → AllOfRank r m
    → AllOfRank r (BTreeMap.insert k ps m)
AllOfRank-insert r k ps [] e h = (e, tt)
AllOfRank-insert r k ps ((j, qs) ∷ m) e h = ground (arith, AllOfRank-insert r k ps m e)

pub record IsComposite (ix : MemoryCompositeIndex) : Type 0 where
  pub valid : IsValid ix.unique ix.entries
  pub ranked : HasRank ix.rank ix.entries

insert_entry-AllOfRank :
    (unique : Bool) (r : ℕ) (k : CompositeIndexKey) (p : IndexPointer)
    (m : Entries CompositeIndexKey)
    → rank_of k ≡ r
    → AllOfRank r m
    → AllOfRank r (Entries.insert_entry unique k p m).1
insert_entry-AllOfRank unique r k p m e h =
    let (ps, is) = insert_entry_stores unique k p m in rw is (AllOfRank-insert r k ps m e h)

-- An insertion, accepted or refused, keeps the keys sorted and of one rank, and the pointers
-- without repetition.
pub insert-IsComposite :
    (k : CompositeIndexKey) (p : IndexPointer) (ix : MemoryCompositeIndex)
    → IsComposite ix
    → IsComposite (insert k p ix).1
unfolding insert
insert-IsComposite k p ix c =
    let v = insert_entry-IsValid ix.unique k p ix.entries c.valid in
    let ranks = insert_entry-AllOfRank ix.unique (rank_of k) k p ix.entries refl in
    elim (Option-cases ix.rank) [
      | inl fresh ↦ rw fresh (record { valid = v; ranked = ranks (ground (arith, c.ranked)) })
      | inr (r, is) ↦ elim (Bool-cases (r == rank_of k)) [
        | inl fits ↦
            rw (is, insert, fits) (record { valid = v; ranked = ground (arith, ranks, c.ranked) })
        | inr not_fits ↦
            rw (is, insert, not_fits)
              (record { valid = c.valid; ranked = ground (arith, c.ranked) })
      ]
    ]

insert_all-IsComposite :
    (pairs : List (CompositeIndexKey × IndexPointer)) (ix : MemoryCompositeIndex)
    → IsComposite ix
    → IsComposite (insert_all pairs ix).1
unfolding insert_all
insert_all-IsComposite [] ix c = c
insert_all-IsComposite ((k, p) ∷ pairs) ix c =
    let c' = insert-IsComposite k p ix c in
    elim (Result-cases (insert k p ix).0) [
      | inl (_, is) ↦ rw (is, insert_all) (insert_all-IsComposite pairs (insert k p ix).1 c')
      | inr (e, is) ↦ rw (is, insert_all) c'
    ]

-- A merge, also one that stops at a refused key, keeps the keys sorted and of one rank, and the
-- pointers without repetition.
pub merge_from-IsComposite :
    (other ix : MemoryCompositeIndex) → IsComposite ix → IsComposite (merge_from other ix).1
unfolding merge_from
merge_from-IsComposite other ix c =
    ground (arith, c, insert_all-IsComposite (Entries.all_pairs other.entries) ix c)

-- The key has as many parts as the pattern, and agrees with it on each bound part.
abbrev pub Fits : List (Option IndexKey) → List IndexKey → Type 0
Fits [] [] = Unit
Fits [] (k ∷ key) = ⊥
Fits (q ∷ parts) [] = ⊥
Fits (none ∷ parts) (k ∷ key) = Fits parts key
Fits (some j ∷ parts) (k ∷ key) = (j ≡ k) × Fits parts key

Fits-matches :
    (parts : List (Option IndexKey)) (key : List IndexKey)
    → Fits parts key
    → (matches parts key ≡ true) × (length key ≡ length parts)
Fits-matches [] [] f = (refl, refl)
Fits-matches [] (k ∷ key) f = absurd f
Fits-matches (q ∷ parts) [] f = absurd f
Fits-matches (none ∷ parts) (k ∷ key) f = ground (arith, Fits-matches parts key f)
Fits-matches (some j ∷ parts) (k ∷ key) f =
    ground (arith, Fits-matches parts key f.1, same_iff j k, f.0)

matches-Fits :
    (parts : List (Option IndexKey)) (key : List IndexKey)
    → matches parts key ≡ true
    → length key ≡ length parts
    → Fits parts key
matches-Fits [] [] m e = tt
matches-Fits [] (k ∷ key) m e = ground arith
matches-Fits (q ∷ parts) [] m e = ground arith
matches-Fits (none ∷ parts) (k ∷ key) m e = matches-Fits parts key m (ground arith)
matches-Fits (some j ∷ parts) (k ∷ key) m e = ground (arith, matches-Fits parts key, same_iff j k)

-- A pointer of a key that fits, for some key.
abbrev pub Hit : List (Option IndexKey) → IndexPointer → Entries CompositeIndexKey → Type 0
Hit parts p m = (k : CompositeIndexKey) × Fits parts k.parts × In p (Entries.point_lookup k m)

Hit-beyond :
    (parts : List (Option IndexKey)) (p : IndexPointer) (k : CompositeIndexKey)
    (ps : List IndexPointer) (m : Entries CompositeIndexKey)
    → BTreeMap.Above k m
    → Hit parts p m
    → Hit parts p ((k, ps) ∷ m)
Hit-beyond parts p k ps m s (j, f, h) = (j, f, ground (arith, same_iff j k, get-Above k m s))

In-matching :
    (parts : List (Option IndexKey)) (p : IndexPointer) (m : Entries CompositeIndexKey)
    → BTreeMap.IsSorted m
    → AllOfRank (length parts) m
    → In p (matching parts m)
    → Hit parts p m
In-matching parts p [] s r h = absurd h
In-matching parts p ((k, ps) ∷ m) s r h = elim (Bool-cases (matches parts k.parts)) [
  | inl fits ↦ elim ((In-append p ps (matching parts m)).0 (rw (fits, matching) at h)) [
    | inl here ↦ (k, matches-Fits parts k.parts fits r.0, ground (arith, same_iff k k))
    | inr later ↦ Hit-beyond parts p k ps m s.0 (In-matching parts p m s.1 r.1 later)
  ]
  | inr other ↦
      Hit-beyond parts p k ps m s.0 (In-matching parts p m s.1 r.1 (rw (other, matching) at h))
]

matching_complete :
    (parts : List (Option IndexKey)) (p : IndexPointer) (k : CompositeIndexKey)
    (m : Entries CompositeIndexKey)
    → Fits parts k.parts
    → In p (Entries.point_lookup k m)
    → In p (matching parts m)
matching_complete parts p k [] f h = h
matching_complete parts p k ((j, ps) ∷ m) f h = ground (
  arith,
  matching_complete parts p k m f,
  Fits-matches parts k.parts f,
  same_iff k j,
  In-append p ps (matching parts m),
)

matching_exact :
    (parts : List (Option IndexKey)) (m : Entries CompositeIndexKey)
    → BTreeMap.IsSorted m
    → AllOfRank (length parts) m
    → (p : IndexPointer) → In p (matching parts m) ↔ Hit parts p m
matching_exact parts m s r p =
    (In-matching parts p m s r, λ (k, f, h). matching_complete parts p k m f h)

-- A skip scan is refused without a bound part, or where the index has another rank than the
-- pattern. Otherwise it returns exactly the pointers of the keys that agree with the pattern on its
-- bound parts.
pub skip_scan_exact :
    (q : CompositeKeyPattern) (ix : MemoryCompositeIndex)
    → IsComposite ix
    → (((any_bound q.parts ≡ false) ⊎ ((r : ℕ) × (ix.rank ≡ some r) × (r ≢ length q.parts)))
        × (skip_scan q ix ≡ err invalid_input))
      ⊎ ((any_bound q.parts ≡ true)
          × ((ps : List IndexPointer) × (skip_scan q ix ≡ ok ps)
              × ((p : IndexPointer) → In p ps ↔ Hit q.parts p ix.entries)))
unfolding skip_scan
skip_scan_exact q ix c =
    let found = matching_exact q.parts ix.entries c.valid.sorted in
    elim (Bool-cases (any_bound q.parts)) [
      | inr unbound ↦ inl (inl unbound, ground arith)
      | inl bound ↦ elim (Option-cases ix.rank) [
        | inl fresh ↦
            inr
              (bound, (matching q.parts ix.entries, ground arith, found (ground (arith, c.ranked))))
        | inr (r, is) ↦ elim (Bool-cases (r == length q.parts)) [
          | inl fits ↦
              inr (
                bound,
                (matching q.parts ix.entries, ground arith, found (ground (arith, c.ranked))),
              )
          | inr not_fits ↦ inl (inr (r, is, ground arith), ground arith)
        ]
      ]
    ]
