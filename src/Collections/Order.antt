-- ===== src/Collections/Order.antt =====
-- The bound `K: Ord` of the ordered containers, and the orders that the crates derive: by numbers,
-- by pairs of fields, by byte strings, and through a projection to an ordered type.
use Prim.Native.Nat.{compare, Ordering}
use Prim.Native.Nat.Ordering.{lt, eq, gt}
use rnov_modular_db.Base.{ℕ, ◌≡◌, refl, ◌↔◌, Bool, true, false, List, [], ◌∷◌, arith}

pub record TotalOrder {ℓ} (K : Type ℓ) : Type ℓ where
  -- `Ord::cmp`
  pub cmp : K → K → Ordering
  -- equal keys are the same, and a key equals itself
  pub eq_of_cmp : (x y : K) → cmp x y ≡ eq → x ≡ y
  pub cmp_refl : (x : K) → cmp x x ≡ eq
  -- swapping the keys swaps the answer
  pub gt_of_lt : (x y : K) → cmp x y ≡ lt → cmp y x ≡ gt
  pub lt_of_gt : (x y : K) → cmp x y ≡ gt → cmp y x ≡ lt
  pub lt_trans : (x y z : K) → cmp x y ≡ lt → cmp y z ≡ lt → cmp x z ≡ lt

module _ {ℓ} {K : Type ℓ} ⦃o : TotalOrder K⦄ where
  -- The `==` that a derived `Ord` agrees with.
  abbrev pub same : K → K → Bool
  same a b = elim (o.cmp a b) [ eq ↦ true | _ ↦ false ]

  infix 50 ◌≺◌
  abbrev pub ◌≺◌ : K → K → Type 0
  a ≺ b = o.cmp a b ≡ lt

  pub same_iff : (a b : K) → (same a b ≡ true) ↔ (a ≡ b)
  same_iff a b = ground (arith, o.eq_of_cmp a b, o.cmp_refl a)

pub nat_refl : (a : ℕ) → compare a a ≡ eq
nat_refl a = ground arith

pub nat_eq : (a b : ℕ) → compare a b ≡ eq → a ≡ b
nat_eq a b h = ground arith

pub nat_gt : (a b : ℕ) → compare a b ≡ gt → compare b a ≡ lt
nat_gt a b h = ground arith

pub nat_lt : (a b : ℕ) → compare a b ≡ lt → compare b a ≡ gt
nat_lt a b h = ground arith

pub nat_trans : (a b c : ℕ) → compare a b ≡ lt → compare b c ≡ lt → compare a c ≡ lt
nat_trans a b c h k = ground arith

instance abbrev pub nat_order : TotalOrder ℕ
nat_order = record {
  cmp = compare;
  cmp_refl = nat_refl;
  eq_of_cmp = nat_eq;
  lt_of_gt = nat_gt;
  gt_of_lt = nat_lt;
  lt_trans = nat_trans;
}

-- `Ordering::then`
abbrev pub then : Ordering → Ordering → Ordering
then eq second = second
then first _ = first

-- Two fields compare one after the other.
module _ {ℓ κ} {A : Type ℓ} {B : Type κ} ⦃a : TotalOrder A⦄ ⦃b : TotalOrder B⦄ where
  abbrev cmp_pair : A × B → A × B → Ordering
  cmp_pair x y = then (a.cmp x.0 y.0) (b.cmp x.1 y.1)

  pub pair_refl : (x : A × B) → cmp_pair x x ≡ eq
  pair_refl x = ground (arith, a.cmp_refl x.0, b.cmp_refl x.1)

  pub pair_eq : (x y : A × B) → cmp_pair x y ≡ eq → x ≡ y
  pair_eq x y h = ground (arith, a.eq_of_cmp x.0 y.0, b.eq_of_cmp x.1 y.1)

  pub pair_gt : (x y : A × B) → cmp_pair x y ≡ gt → cmp_pair y x ≡ lt
  pair_gt x y h =
      ground (arith, a.eq_of_cmp x.0 y.0, a.cmp_refl y.0, a.lt_of_gt x.0 y.0, b.lt_of_gt x.1 y.1)

  pub pair_lt : (x y : A × B) → cmp_pair x y ≡ lt → cmp_pair y x ≡ gt
  pair_lt x y h =
      ground (arith, a.eq_of_cmp x.0 y.0, a.cmp_refl y.0, a.gt_of_lt x.0 y.0, b.gt_of_lt x.1 y.1)

  pub pair_trans : (x y z : A × B) → cmp_pair x y ≡ lt → cmp_pair y z ≡ lt → cmp_pair x z ≡ lt
  pair_trans x y z h k = ground (
    arith,
    a.eq_of_cmp x.0 y.0,
    a.eq_of_cmp y.0 z.0,
    a.lt_trans x.0 y.0 z.0,
    b.lt_trans x.1 y.1 z.1,
  )

  instance abbrev pub pair_order : TotalOrder (A × B)
  pair_order = record {
    cmp = cmp_pair;
    cmp_refl = pair_refl;
    eq_of_cmp = pair_eq;
    lt_of_gt = pair_gt;
    gt_of_lt = pair_lt;
    lt_trans = pair_trans;
  }

-- Sequences compare as dictionaries do: byte strings, and the parts of a composite key.
module _ {ℓ} {A : Type ℓ} ⦃a : TotalOrder A⦄ where
  abbrev cmp_list : List A → List A → Ordering
  cmp_list [] [] = eq
  cmp_list [] (y ∷ ys) = lt
  cmp_list (x ∷ xs) [] = gt
  cmp_list (x ∷ xs) (y ∷ ys) = then (a.cmp x y) (cmp_list xs ys)

  pub list_refl : (xs : List A) → cmp_list xs xs ≡ eq
  list_refl [] = refl
  list_refl (x ∷ xs) = ground (arith, a.cmp_refl x, list_refl xs)

  pub list_eq : (xs ys : List A) → cmp_list xs ys ≡ eq → xs ≡ ys
  list_eq [] [] h = refl
  list_eq [] (y ∷ ys) h = cc
  list_eq (x ∷ xs) [] h = cc
  list_eq (x ∷ xs) (y ∷ ys) h = ground (arith, a.eq_of_cmp x y, list_eq xs ys)

  pub list_gt : (xs ys : List A) → cmp_list xs ys ≡ gt → cmp_list ys xs ≡ lt
  list_gt [] [] h = cc
  list_gt [] (y ∷ ys) h = cc
  list_gt (x ∷ xs) [] h = refl
  list_gt (x ∷ xs) (y ∷ ys) h =
      ground (arith, a.eq_of_cmp x y, a.cmp_refl y, a.lt_of_gt x y, list_gt xs ys)

  pub list_lt : (xs ys : List A) → cmp_list xs ys ≡ lt → cmp_list ys xs ≡ gt
  list_lt [] [] h = cc
  list_lt [] (y ∷ ys) h = refl
  list_lt (x ∷ xs) [] h = cc
  list_lt (x ∷ xs) (y ∷ ys) h =
      ground (arith, a.eq_of_cmp x y, a.cmp_refl y, a.gt_of_lt x y, list_lt xs ys)

  pub list_trans :
      (xs ys zs : List A) → cmp_list xs ys ≡ lt → cmp_list ys zs ≡ lt → cmp_list xs zs ≡ lt
  list_trans [] [] zs h k = cc
  list_trans [] (y ∷ ys) [] h k = cc
  list_trans [] (y ∷ ys) (z ∷ zs) h k = refl
  list_trans (x ∷ xs) [] zs h k = cc
  list_trans (x ∷ xs) (y ∷ ys) [] h k = cc
  list_trans (x ∷ xs) (y ∷ ys) (z ∷ zs) h k =
      ground (arith, a.eq_of_cmp x y, a.eq_of_cmp y z, a.lt_trans x y z, list_trans xs ys zs)

  instance abbrev pub list_order : TotalOrder (List A)
  list_order = record {
    cmp = cmp_list;
    cmp_refl = list_refl;
    eq_of_cmp = list_eq;
    lt_of_gt = list_gt;
    gt_of_lt = list_lt;
    lt_trans = list_trans;
  }

-- A type that is sent into an ordered one without collisions is ordered by its image.
abbrev pub order_by {ℓ κ} :
    {A : Type ℓ} {B : Type κ} (f : A → B) (inj : (x y : A) → f x ≡ f y → x ≡ y) ⦃b : TotalOrder B⦄
    → TotalOrder A
order_by f inj ⦃b⦄ = record {
  cmp = λ x y. b.cmp (f x) (f y);
  cmp_refl = λ x. b.cmp_refl (f x);
  eq_of_cmp = λ x y h. inj x y (b.eq_of_cmp (f x) (f y) h);
  lt_of_gt = λ x y. b.lt_of_gt (f x) (f y);
  gt_of_lt = λ x y. b.gt_of_lt (f x) (f y);
  lt_trans = λ x y z. b.lt_trans (f x) (f y) (f z);
}
