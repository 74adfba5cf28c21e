-- ===== src/Index/Entries/Unique.antt =====
-- The loops of `merge_from` on unique indexes, which stop at the first key that both have.
use rnov_modular_db.Base.{
  ◌≤◌, ◌≡◌, ◌≢◌, refl, ◌↔◌, ◌⊎◌, inl, inr, Bool, true, false, some, List, [], ◌∷◌, In, length,
  arith,
}
use rnov_modular_db.Common.{ok, err, invalid_input}
use rnov_modular_db.Collections.Order.{TotalOrder, same_iff}
use rnov_modular_db.Collections.BTreeMap
use rnov_modular_db.Collections.BTreeMap.{get-Above, get-insert}
use rnov_modular_db.Index.Key.{IndexPointer}
use rnov_modular_db.Index.Entries.{Entries, point_lookup, insert_entry, insert_pairs, all_pairs}
use rnov_modular_db.Index.Entries.Insert.{IsValid, insert_entry_outcome}
use rnov_modular_db.Index.Entries.Merge.{merge_union}

one_pointer :
    (ps : List IndexPointer) → length ps ≤ 1 → ps ≢ [] → (q : IndexPointer) × (ps ≡ q ∷ [])
one_pointer [] small ne = absurd (ne refl)
one_pointer (q ∷ []) small ne = (q, refl)
one_pointer (q ∷ r ∷ ps) small ne = absurd (omega (arith, small))

module _ {ℓ} {K : Type ℓ} ⦃o : TotalOrder K⦄ where
  -- Every key has one pointer.
  abbrev pub AllSingle : Entries K → Type 0
  AllSingle [] = Unit
  AllSingle ((k, ps) ∷ m) = ((q : IndexPointer) × (ps ≡ q ∷ [])) × AllSingle m

  entries-AllSingle :
      (m : Entries K)
      → BTreeMap.IsSorted m
      → ((k : K) (ps : List IndexPointer)
          → BTreeMap.get k m ≡ some ps
          → (q : IndexPointer) × (ps ≡ q ∷ []))
      → AllSingle m
  entries-AllSingle [] s h = tt
  entries-AllSingle ((j, ps) ∷ m) s h = (
    h j ps (ground (arith, same_iff j j)),
    entries-AllSingle m s.1 (λ k qs e. h k qs (ground (arith, same_iff k j, get-Above j m s.0))),
  )

  -- A valid unique index has one pointer for each key.
  pub IsValid-AllSingle : (m : Entries K) → IsValid true m → AllSingle m
  IsValid-AllSingle m v =
      entries-AllSingle m v.sorted
        (λ k ps e. one_pointer ps (ground (arith, v.single refl k)) (v.filled k ps e))

  -- The union of two indexes, at every key.
  abbrev pub IsUnion : Entries K → Entries K → Entries K → Type ℓ
  IsUnion m other union =
      (k : K) (p : IndexPointer)
      → In p (point_lookup k union) ↔ (In p (point_lookup k m) ⊎ In p (point_lookup k other))

  -- No key has pointers in both.
  abbrev pub Disjoint : Entries K → Entries K → Type ℓ
  Disjoint m other = (k : K) → (point_lookup k m ≡ []) ⊎ (point_lookup k other ≡ [])

  -- Two unique indexes merge exactly if they have no key in common, and each key then has its
  -- pointers. Otherwise the merge is refused; what the index had, it still has.
  pub merge_unique :
      (other m : Entries K)
      → BTreeMap.IsSorted other
      → AllSingle other
      → (Disjoint m other
          × ((insert_pairs true (all_pairs other) m).0 ≡ ok tt)
          × IsUnion m other (insert_pairs true (all_pairs other) m).1)
        ⊎ (((k : K) × (point_lookup k m ≢ []) × (point_lookup k other ≢ []))
            × ((insert_pairs true (all_pairs other) m).0 ≡ err invalid_input)
            × ((k : K) (p : IndexPointer)
                → In p (point_lookup k m)
                → In p (point_lookup k (insert_pairs true (all_pairs other) m).1)))
  unfolding insert_pairs
  merge_unique [] m s one = inl (λ k. inr refl, refl, λ k p. ground arith)
  merge_unique ((j, ps) ∷ other) m s one =
      let q = one.0.0 in
      let m' = (insert_entry true j q m).1 in
      rw (one.0.1) (elim (insert_entry_outcome true j q m) [
        | inl (_, taken, refused, kept) ↦ inr (
          (j, taken, ground (arith, same_iff j j)),
          rw (refused, insert_pairs) refl,
          λ k p h. rw (refused, insert_pairs) (ground (arith, kept k, h)),
        )
        | inr (free, done, now) ↦ elim (merge_unique other m' s.1 one.1) [
          | inl (disjoint, ends, union) ↦ inl (
            λ k. ground (arith, disjoint k, now k, free, same_iff k j),
            rw (done, insert_pairs) ends,
            λ k p.
                rw (done, insert_pairs)
                  (ground (arith, union k p, now k, free, same_iff k j, get-Above j other s.0)),
          )
          | inr ((k, had, has), refused, kept) ↦ inr (
            (
              k,
              ground (arith, had, has, now k, same_iff k j, get-Above j other s.0),
              ground (arith, has, same_iff k j, get-Above j other s.0),
            ),
            rw (done, insert_pairs) refused,
            λ i p h.
                rw (done, insert_pairs) (kept i p (ground (arith, h, now i, free, same_iff i j))),
          )
        ]
      ])

  -- The loops of `merge_from`, for either kind of index.
  abbrev pub MergeOutcome : Bool → Entries K → Entries K → Type ℓ
  MergeOutcome unique other m =
      (((unique ≡ false) ⊎ Disjoint m other)
        × ((insert_pairs unique (all_pairs other) m).0 ≡ ok tt)
        × IsUnion m other (insert_pairs unique (all_pairs other) m).1)
      ⊎ ((unique ≡ true)
          × ((k : K) × (point_lookup k m ≢ []) × (point_lookup k other ≢ []))
          × ((insert_pairs unique (all_pairs other) m).0 ≡ err invalid_input)
          × ((k : K) (p : IndexPointer)
              → In p (point_lookup k m)
              → In p (point_lookup k (insert_pairs unique (all_pairs other) m).1)))

  pub merge_outcome :
      (unique : Bool) (other m : Entries K) → IsValid unique other → MergeOutcome unique other m
  merge_outcome false other m v =
      let (done, union) = merge_union m other v.sorted in inl (inl refl, done, union)
  merge_outcome true other m v = elim (merge_unique other m v.sorted (IsValid-AllSingle other v)) [
    | inl (disjoint, done, union) ↦ inl (inr disjoint, done, union)
    | inr (shared, refused, kept) ↦ inr (refl, shared, refused, kept)
  ]
