-- ===== src/Instance/Isolation/Laws.antt =====
-- Namespaces of different instances differ.
use rnov_modular_db.Base.{
  ℕ, zero, suc, ◌+◌, ◌-◌, ◌*◌, ◌/◌, ◌%◌, ◌<◌, ◌≡◌, refl, sym, ap, ◌∙◌, ◌↔◌, ◌⊎◌, true, [], ◌∷◌,
  ◌++◌, arith,
}
use rnov_modular_db.Collections.Order.{same, same_iff, list_order, nat_order}
use rnov_modular_db.Instance.Isolation.{
  Text, digits, decimal, with_suffix, for_instance, shares_namespace, InstanceConfig,
  conflicts_with,
}

-- The number that decimal digits denote, after the digits of `n`.
abbrev pub denoted : ℕ → Text → ℕ
denoted n [] = n
denoted n (d ∷ ds) = denoted (10 * n + (d - 48)) ds

denoted-append : (n : ℕ) (xs ys : Text) → denoted n (xs ++ ys) ≡ denoted (denoted n xs) ys
denoted-append n [] ys = refl
denoted-append n (x ∷ xs) ys = denoted-append (10 * n + (x - 48)) xs ys

denoted-digits : (fuel n : ℕ) → n < fuel → denoted 0 (digits fuel n) ≡ n
denoted-digits zero n h = ground arith
denoted-digits (suc fuel) n h = ground (
  arith,
  denoted-digits fuel (n / 10),
  denoted-append 0 (digits fuel (n / 10)) ((48 + n % 10) ∷ []),
)

decimal_injective : (a b : ℕ) → decimal a ≡ decimal b → a ≡ b
unfolding decimal
decimal_injective a b e =
    sym (denoted-digits (suc a) a (omega arith))
    ∙ ap (denoted 0) e
    ∙ denoted-digits (suc b) b (omega arith)

-- The prefixes are apart, so that namespaces agree only where they are of one kind.
shares-with_suffix : (s t : Text) → shares_namespace (with_suffix s) (with_suffix t) ≡ same s t
shares-with_suffix s t = ground arith

-- The namespaces of two instances overlap exactly if it is one instance.
pub shares-for_instance :
    (a b : ℕ) → (shares_namespace (for_instance a) (for_instance b) ≡ true) ↔ (a ≡ b)
shares-for_instance a b = ground (
  arith,
  shares-with_suffix (decimal a) (decimal b),
  same_iff (decimal a) (decimal b),
  decimal_injective a b,
  ap decimal {x = a} {y = b},
)

-- A configuration as `isolated` makes it.
abbrev pub IsIsolated : InstanceConfig → Type 0
IsIsolated c = c.isolation ≡ for_instance c.instance_id

-- Isolated configurations conflict exactly if they name one instance or one database.
pub conflicts_with_iff :
    (c d : InstanceConfig)
    → IsIsolated c
    → IsIsolated d
    → (conflicts_with c d ≡ true)
      ↔ ((c.instance_id ≡ d.instance_id) ⊎ (c.database_id ≡ d.database_id))
unfolding conflicts_with
conflicts_with_iff c d i j =
    rw (i, j) (ground (arith, shares-for_instance c.instance_id d.instance_id))
