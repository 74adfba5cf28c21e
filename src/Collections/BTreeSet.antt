-- ===== src/Collections/BTreeSet.antt =====
-- `BTreeSet` as its elements in ascending order.
use Prim.Native.Nat.Ordering.{lt, eq, gt}
use rnov_modular_db.Base.{
  ◌≡◌, refl, ap, ◌∙◌, Bool, false, not, ◌&&◌, ◌||◌, List, [], ◌∷◌, arith, if◌then◌else◌,
}
use rnov_modular_db.Collections.Order.{TotalOrder, same}

abbrev pub BTreeSet {ℓ} : Type ℓ → Type ℓ
BTreeSet K = List K

module _ {ℓ} {K : Type ℓ} ⦃o : TotalOrder K⦄ where
  abbrev pub contains : K → BTreeSet K → Bool
  contains k [] = false
  contains k (j ∷ s) = same k j || contains k s

  abbrev pub insert : K → BTreeSet K → BTreeSet K
  insert k [] = k ∷ []
  insert k (j ∷ s) = elim (o.cmp k j) [ lt ↦ k ∷ j ∷ s | eq ↦ j ∷ s | gt ↦ j ∷ insert k s ]

  abbrev pub remove : K → BTreeSet K → BTreeSet K
  remove k [] = []
  remove k (j ∷ s) = if same k j then remove k s else j ∷ remove k s

  pub contains-insert :
      (j k : K) (s : BTreeSet K) → contains j (insert k s) ≡ (same j k || contains j s)
  contains-insert j k [] = refl
  contains-insert j k (i ∷ s) =
      ground (arith, contains-insert j k s, o.eq_of_cmp k i, o.eq_of_cmp j k, o.cmp_refl i)

  pub contains-remove :
      (j k : K) (s : BTreeSet K) → contains j (remove k s) ≡ (not (same j k) && contains j s)
  contains-remove j k [] = ground arith
  contains-remove j k (i ∷ s) = ground (
    arith,
    contains-remove j k s,
    o.eq_of_cmp k i,
    o.eq_of_cmp j k,
    o.eq_of_cmp j i,
    o.cmp_refl i,
  )

  -- `collect` into a set.
  abbrev pub collect : List K → BTreeSet K
  collect [] = []
  collect (k ∷ ks) = insert k (collect ks)

  pub contains-collect : (k : K) (ks : List K) → contains k (collect ks) ≡ contains k ks
  contains-collect k [] = refl
  contains-collect k (j ∷ ks) =
      contains-insert k j (collect ks) ∙ ap (λ b. same k j || b) (contains-collect k ks)
