-- ===== src/Collections/BTreeMap.antt =====
-- `BTreeMap` as its entries in ascending order of the keys. Lookup is by equality of keys; the
-- order decides where an entry stands, and so in which order an iteration meets it.
use Prim.Native.Nat.Ordering.{lt, eq, gt}
use rnov_modular_db.Base.{
  ◌≡◌, ◌≢◌, refl, ◌⊎◌, Bool, true, false, Option, none, some, List, [], ◌∷◌, arith, if◌then◌else◌,
}
use rnov_modular_db.Collections.Order.{TotalOrder, same, ◌≺◌}

abbrev pub BTreeMap {ℓ κ} : Type ℓ → Type κ → Type (ℓ ⊔ κ)
BTreeMap K V = List (K × V)

module _ {ℓ κ} {K : Type ℓ} {V : Type κ} where
  abbrev pub values : BTreeMap K V → List V
  values [] = []
  values ((k, v) ∷ m) = v ∷ values m

  abbrev pub keys : BTreeMap K V → List K
  keys [] = []
  keys ((k, v) ∷ m) = k ∷ keys m

  abbrev pub retain : (K → V → Bool) → BTreeMap K V → BTreeMap K V
  retain p [] = []
  retain p ((k, v) ∷ m) = if p k v then (k, v) ∷ retain p m else retain p m

  -- A loop over `values_mut`.
  abbrev pub map_values : (V → V) → BTreeMap K V → BTreeMap K V
  map_values f [] = []
  map_values f ((k, v) ∷ m) = (k, f v) ∷ map_values f m

module _ {ℓ κ} {K : Type ℓ} {V : Type κ} ⦃o : TotalOrder K⦄ where
  abbrev pub get : K → BTreeMap K V → Option V
  get k [] = none
  get k ((j, v) ∷ m) = if same k j then some v else get k m

  abbrev pub contains_key : K → BTreeMap K V → Bool
  contains_key k m = elim (get k m) [ none ↦ false | some _ ↦ true ]

  abbrev pub insert : K → V → BTreeMap K V → BTreeMap K V
  insert k v [] = (k, v) ∷ []
  insert k v ((j, w) ∷ m) = elim (o.cmp k j) [
    | lt ↦ (k, v) ∷ (j, w) ∷ m
    | eq ↦ (k, v) ∷ m
    | gt ↦ (j, w) ∷ insert k v m
  ]

  abbrev pub remove : K → BTreeMap K V → BTreeMap K V
  remove k m = retain (λ j _. if same k j then false else true) m

  -- Every key of the map lies above `b`.
  abbrev pub Above : K → BTreeMap K V → Type 0
  Above b [] = Unit
  Above b ((k, v) ∷ m) = (b ≺ k) × Above b m

  -- The keys ascend, and so none is listed twice.
  abbrev pub IsSorted : BTreeMap K V → Type 0
  IsSorted [] = Unit
  IsSorted ((k, v) ∷ m) = Above k m × IsSorted m

  pub get-insert :
      (j k : K) (v : V) (m : BTreeMap K V)
      → get j (insert k v m) ≡ (if same j k then some v else get j m)
  get-insert j k v [] = refl
  get-insert j k v ((i, w) ∷ m) =
      ground (arith, get-insert j k v m, o.eq_of_cmp k i, o.eq_of_cmp j k, o.cmp_refl i)

  pub get-insert_self : (k : K) (v : V) (m : BTreeMap K V) → get k (insert k v m) ≡ some v
  get-insert_self k v m = ground (arith, get-insert k k v m, o.cmp_refl k)

  pub get-insert_ne : (j k : K) (v : V) (m : BTreeMap K V) → j ≢ k → get j (insert k v m) ≡ get j m
  get-insert_ne j k v m h = ground (arith, get-insert j k v m, o.eq_of_cmp j k)

  -- An entry that stands in the map after an insertion is the new one, or was there before.
  pub insert-cases :
      (j k : K) (v w : V) (m : BTreeMap K V)
      → get j (insert k v m) ≡ some w
      → ((j ≡ k) × (w ≡ v)) ⊎ ((j ≢ k) × (get j m ≡ some w))
  insert-cases j k v w m h = ground (arith, get-insert j k v m, o.eq_of_cmp j k, o.cmp_refl k)

  pub get-remove :
      (j k : K) (m : BTreeMap K V) → get j (remove k m) ≡ (if same j k then none else get j m)
  get-remove j k [] = ground arith
  get-remove j k ((i, w) ∷ m) =
      ground
        (arith, get-remove j k m, o.eq_of_cmp j k, o.eq_of_cmp k i, o.eq_of_cmp j i, o.cmp_refl i)

  pub get-map_values :
      (f : V → V) (k : K) (m : BTreeMap K V)
      → get k (map_values f m) ≡ elim (get k m) [ none ↦ none | some v ↦ some (f v) ]
  get-map_values f k [] = refl
  get-map_values f k ((j, v) ∷ m) = ground (arith, get-map_values f k m)

  Above-insert : (b k : K) (v : V) (m : BTreeMap K V) → b ≺ k → Above b m → Above b (insert k v m)
  Above-insert b k v [] h a = (h, tt)
  Above-insert b k v ((j, w) ∷ m) h a = ground (arith, Above-insert b k v m)

  Above-trans : (a b : K) (m : BTreeMap K V) → a ≺ b → Above b m → Above a m
  Above-trans a b [] h k = tt
  Above-trans a b ((j, w) ∷ m) h k = (o.lt_trans a b j h k.0, Above-trans a b m h k.1)

  Above-retain : (p : K → V → Bool) (b : K) (m : BTreeMap K V) → Above b m → Above b (retain p m)
  Above-retain p b [] a = tt
  Above-retain p b ((j, w) ∷ m) a = ground (arith, Above-retain p b m a.1)

  pub insert-IsSorted : (k : K) (v : V) (m : BTreeMap K V) → IsSorted m → IsSorted (insert k v m)
  insert-IsSorted k v [] s = (tt, tt)
  insert-IsSorted k v ((j, w) ∷ m) s = ground (
    arith,
    insert-IsSorted k v m,
    Above-insert j k v m,
    Above-trans k j m,
    o.eq_of_cmp k j,
    o.lt_of_gt k j,
  )

  pub retain-IsSorted : (p : K → V → Bool) (m : BTreeMap K V) → IsSorted m → IsSorted (retain p m)
  retain-IsSorted p [] s = tt
  retain-IsSorted p ((j, w) ∷ m) s = ground (arith, retain-IsSorted p m s.1, Above-retain p j m s.0)

  pub get-Above : (k : K) (m : BTreeMap K V) → Above k m → get k m ≡ none
  get-Above k [] a = refl
  get-Above k ((j, w) ∷ m) a = ground (arith, get-Above k m a.1)

  -- Over sorted entries `retain` keeps exactly the entries that pass.
  pub get-retain :
      (p : K → V → Bool) (k : K) (m : BTreeMap K V)
      → IsSorted m
      → get k (retain p m)
        ≡ elim (get k m) [ none ↦ none | some v ↦ if p k v then some v else none ]
  get-retain p k [] s = refl
  get-retain p k ((j, w) ∷ m) s = ground (
    arith,
    get-retain p k m s.1,
    o.eq_of_cmp k j,
    get-Above j (retain p m),
    Above-retain p j m s.0,
  )
