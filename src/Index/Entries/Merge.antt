-- ===== src/Index/Entries/Merge.antt =====
-- The loops of `merge_from`: insertion of all the pairs of another index, up to the first refusal.
use rnov_modular_db.Base.{
  ◌≡◌, refl, ◌↔◌, ◌⊎◌, inl, inr, Bool, false, ◌&&◌, ◌||◌, List, [], ◌∷◌, ◌++◌, In, arith,
}
use rnov_modular_db.Common.{ok, Result-cases}
use rnov_modular_db.Collections.Order.{TotalOrder, same, same_iff}
use rnov_modular_db.Collections.BTreeMap
use rnov_modular_db.Collections.BTreeMap.{get-Above, get-insert}
use rnov_modular_db.Index.Key.{IndexPointer, pointer_eq, contains, contains-In}
use rnov_modular_db.Index.Entries.{
  Entries, push_new, point_lookup, insert_entry, insert_pairs, pairs_of, all_pairs,
}
use rnov_modular_db.Index.Entries.Insert.{IsValid, insert_entry-IsValid, contains-push_new}

module _ {ℓ} {K : Type ℓ} ⦃o : TotalOrder K⦄ where
  pub insert_pairs-IsValid :
      (unique : Bool) (pairs : List (K × IndexPointer)) (m : Entries K)
      → IsValid unique m
      → IsValid unique (insert_pairs unique pairs m).1
  unfolding insert_pairs
  insert_pairs-IsValid unique [] m v = v
  insert_pairs-IsValid unique ((k, p) ∷ pairs) m v =
      let m' = (insert_entry unique k p m).1 in
      let v' = insert_entry-IsValid unique k p m v in
      elim (Result-cases (insert_entry unique k p m).0) [
        | inl (_, is) ↦ rw (is, insert_pairs) (insert_pairs-IsValid unique pairs m' v')
        | inr (e, is) ↦ rw (is, insert_pairs) v'
      ]

  -- A list of pairs has the pointer for the key.
  abbrev pub has : K → IndexPointer → List (K × IndexPointer) → Bool
  has k p [] = false
  has k p ((j, q) ∷ pairs) = same k j && pointer_eq q p || has k p pairs

  has-pairs_of :
      (k j : K) (p : IndexPointer) (ps : List IndexPointer) (rest : List (K × IndexPointer))
      → has k p (pairs_of j ps ++ rest) ≡ (same k j && contains ps p || has k p rest)
  has-pairs_of k j p [] rest = ground arith
  has-pairs_of k j p (q ∷ ps) rest = ground (arith, has-pairs_of k j p ps rest)

  has-all_pairs :
      (k : K) (p : IndexPointer) (m : Entries K)
      → BTreeMap.IsSorted m
      → has k p (all_pairs m) ≡ contains (point_lookup k m) p
  has-all_pairs k p [] s = refl
  has-all_pairs k p ((j, ps) ∷ m) s = ground (
    arith,
    has-pairs_of k j p ps (all_pairs m),
    has-all_pairs k p m s.1,
    get-Above j m s.0,
    same_iff k j,
  )

  -- A non-unique index refuses none of the pairs, and afterwards has those and its own.
  insert_pairs_union :
      (pairs : List (K × IndexPointer)) (m : Entries K)
      → ((insert_pairs false pairs m).0 ≡ ok tt)
        × ((k : K) (p : IndexPointer)
            → contains (point_lookup k (insert_pairs false pairs m).1) p
              ≡ (has k p pairs || contains (point_lookup k m) p))
  unfolding insert_pairs insert_entry
  insert_pairs_union [] m = (refl, λ k p. refl)
  insert_pairs_union ((j, q) ∷ pairs) m =
      let m' = (insert_entry false j q m).1 in
      let (done, holds) = insert_pairs_union pairs m' in
      (
        done,
        λ k p. ground (
          arith,
          holds k p,
          get-insert k j (push_new q (point_lookup j m)) m,
          contains-push_new q p (point_lookup j m),
          same_iff k j,
        ),
      )

  -- The two loops of `merge_from` on a non-unique index never fail, and the result has exactly the
  -- pointers that one index or the other had for each key. (The other index is well-formed.)
  pub merge_union :
      (m other : Entries K)
      → BTreeMap.IsSorted other
      → ((insert_pairs false (all_pairs other) m).0 ≡ ok tt)
        × ((k : K) (p : IndexPointer)
            → In p (point_lookup k (insert_pairs false (all_pairs other) m).1)
              ↔ (In p (point_lookup k m) ⊎ In p (point_lookup k other)))
  merge_union m other s =
      let (done, holds) = insert_pairs_union (all_pairs other) m in
      (
        done,
        λ k p. ground (
          arith,
          holds k p,
          has-all_pairs k p other s,
          contains-In (point_lookup k m) p,
          contains-In (point_lookup k other) p,
          contains-In (point_lookup k (insert_pairs false (all_pairs other) m).1) p,
        ),
      )
