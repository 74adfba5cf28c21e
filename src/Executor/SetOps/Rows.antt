-- ===== src/Executor/SetOps/Rows.antt =====
-- crates/rnmdb-executor/src/memory/set_ops.rs: copies of a row, and sets and counts of rows.
use rnov_modular_db.Base.{
  ℕ, ◌+◌, ◌-◌, ◌<◌, ◌≡◌, ◌↔◌, refl, ap, Bool, true, false, Option, none, some, List, [], ◌∷◌, ◌++◌,
  arith, inl, inr, Bool-cases, Option-cases, if◌then◌else◌, ◌==◌,
}
use rnov_modular_db.Executor.Values.{SqlValues}
use rnov_modular_db.Executor.Vector.{Row, equal_lists, equal_rows}
use rnov_modular_db.Executor.SetOps.{contains, RowCounts, count_row, take_row}

equal_lists_iff : (V : SqlValues) (xs ys : List V.value) → (equal_lists V xs ys ≡ true) ↔ (xs ≡ ys)
unfolding equal_lists
equal_lists_iff V [] [] = ground arith
equal_lists_iff V [] (y ∷ ys) = ground arith
equal_lists_iff V (x ∷ xs) [] = ground arith
equal_lists_iff V (x ∷ xs) (y ∷ ys) =
    ground (arith, V.equal_values_iff x y, equal_lists_iff V xs ys)

abbrev pub bit : Bool → ℕ
bit true = 1
bit false = 0

module _ {V : SqlValues} where
  pub equal_rows-eq : (r s : Row V) → equal_rows r s ≡ true → r ≡ s
  equal_rows-eq r s h =
      ap (λ values. record { values = values }) ((equal_lists_iff V r.values s.values).0 h)

  pub equal_rows_self : (r : Row V) → equal_rows r r ≡ true
  equal_rows_self r = (equal_lists_iff V r.values r.values).1 refl

  -- Equality of rows is symmetric, and equal rows are equal to the same rows.
  pub equal_rows_sym : (r s : Row V) → equal_rows r s ≡ equal_rows s r
  equal_rows_sym r s = ground (
    arith,
    equal_lists_iff V r.values s.values,
    equal_lists_iff V s.values r.values,
    Bool-cases (equal_rows r s),
    Bool-cases (equal_rows s r),
  )

  pub equal_rows_same : (r s t : Row V) → equal_rows r s ≡ true → equal_rows r t ≡ equal_rows s t
  equal_rows_same r s t h = ap (λ x. equal_rows x t) (equal_rows-eq r s h)

  -- how often the row stands in the list
  unfoldable pub copies : Row V → List (Row V) → ℕ
  copies r [] = 0
  copies r (x ∷ xs) = bit (equal_rows r x) + copies r xs

  pub copies-append :
      (r : Row V) (xs ys : List (Row V)) → copies r (xs ++ ys) ≡ copies r xs + copies r ys
  unfolding copies
  copies-append r [] ys = omega arith
  copies-append r (x ∷ xs) ys = omega (arith, copies-append r xs ys)

  pub contains-copies :
      (r : Row V) (xs : List (Row V)) → bit (contains r xs) ≡ (if copies r xs == 0 then 0 else 1)
  unfolding copies contains
  contains-copies r [] = refl
  contains-copies r (x ∷ xs) = ground (arith, contains-copies r xs)

  pub contains_same :
      (r s : Row V) (xs : List (Row V)) → equal_rows r s ≡ true → contains r xs ≡ contains s xs
  contains_same r s xs h = ap (λ t. contains t xs) (equal_rows-eq r s h)

  -- the count of a row in the map, 0 where it has no entry
  unfoldable pub amount : Row V → RowCounts V → ℕ
  amount r [] = 0
  amount r ((s, n) ∷ counts) = let more = amount r counts in if equal_rows r s then n else more

  pub amount_same :
      (r s : Row V) (counts : RowCounts V)
      → equal_rows r s ≡ true
      → amount r counts ≡ amount s counts
  amount_same r s counts h = ap (λ t. amount t counts) (equal_rows-eq r s h)

  pub amount-count_row :
      (r s : Row V) (counts : RowCounts V)
      → amount r (count_row s counts) ≡ bit (equal_rows r s) + amount r counts
  unfolding amount count_row
  amount-count_row r s [] = ground arith
  amount-count_row r s ((t, n) ∷ counts) = elim (Bool-cases (equal_rows s t)) [
    | inl h ↦ ground (
      arith,
      h,
      equal_rows_same s t r h,
      equal_rows_sym r s,
      equal_rows_sym r t,
      amount-count_row r s counts,
    )
    | inr h ↦
        ground (arith, h, equal_rows_same r t s, equal_rows_sym s t, amount-count_row r s counts)
  ]

  -- What `take_row` answers: a copy is taken off the count of the row if there is one.
  abbrev pub Takes : Row V → RowCounts V → Option (RowCounts V) → Type 0
  Takes r counts none = amount r counts ≡ 0
  Takes r counts (some fewer) =
      (0 < amount r counts)
      × ((s : Row V) → amount s fewer + bit (equal_rows s r) ≡ amount s counts)

  Takes-cons :
      (r s : Row V) (n : ℕ) (counts fewer : RowCounts V)
      → equal_rows r s ≡ false
      → Takes r counts (some fewer)
      → Takes r ((s, n) ∷ counts) (some ((s, n) ∷ fewer))
  unfolding amount
  Takes-cons r s n counts fewer h k = (
    ground (arith, h, k.0),
    λ t. ground (arith, h, k.1 t, equal_rows_same t s r, equal_rows_sym r s),
  )

  Takes-here :
      (r s : Row V) (n : ℕ) (counts : RowCounts V)
      → equal_rows r s ≡ true
      → (n == 0) ≡ false
      → Takes r ((s, n) ∷ counts) (some ((s, n - 1) ∷ counts))
  unfolding amount
  Takes-here r s n counts h k = (
    ground (arith, h, k),
    λ t. ground (arith, h, k, equal_rows_same r s t, equal_rows_sym t r, equal_rows_sym t s),
  )

  pub take_row-Takes : (r : Row V) (counts : RowCounts V) → Takes r counts (take_row r counts)
  unfolding take_row amount
  take_row-Takes r [] = refl
  take_row-Takes r ((s, n) ∷ counts) = elim (Bool-cases (equal_rows r s)) [
    | inl h ↦ elim (Bool-cases (n == 0)) [
      | inl z ↦ rw (h, z, take_row, amount) (ground (arith, h, z))
      | inr z ↦ rw (h, z, take_row) (Takes-here r s n counts h z)
    ]
    | inr h ↦ elim (Option-cases (take_row r counts)) [
      | inl e ↦ rw (h, e, take_row) (ground (arith, h, rw e at (take_row-Takes r counts)))
      | inr (fewer, e) ↦
          rw (h, e, take_row) (Takes-cons r s n counts fewer h (rw e at (take_row-Takes r counts)))
    ]
  ]
