-- ===== src/Txn/Locks/Paths.antt =====
-- The waits-for graph under the edits of `LockManager`: its edges, paths and cycles.
use rnov_modular_db.Base.{
  ◌≡◌, ◌≢◌, ◌↔◌, ◌⊎◌, inl, inr, ◌∷◌, arith, sym, subst, Option-cases, List-cases,
}
use rnov_modular_db.Collections.Order.{same_iff, nat_order}
use rnov_modular_db.Collections.BTreeMap
use rnov_modular_db.Collections.BTreeMap.{get-insert, get-remove, get-map_values}
use rnov_modular_db.Collections.BTreeSet
use rnov_modular_db.Collections.BTreeSet.{contains-insert, contains-remove}
use rnov_modular_db.Txn.Locks.{
  TransactionId, WaitsFor, blockers, add_wait_edge, remove_wait_edge, clear_wait,
}
use rnov_modular_db.Txn.Locks.Search.{Edge, WaitPath, here, step}

pub Edge-add_wait_edge :
    (t h a b : TransactionId) (w : WaitsFor)
    → Edge (add_wait_edge t h w) a b ↔ ((a ≡ t) × (b ≡ h) ⊎ Edge w a b)
unfolding add_wait_edge
Edge-add_wait_edge t h a b w = ground (
  arith,
  get-insert a t (BTreeSet.insert h (blockers t w)) w,
  contains-insert b h (blockers t w),
  same_iff a t,
  same_iff b h,
)

pub Edge-clear_wait :
    (t a b : TransactionId) (w : WaitsFor) → Edge (clear_wait t w) a b ↔ ((a ≢ t) × Edge w a b)
unfolding clear_wait
Edge-clear_wait t a b w = ground (arith, get-remove a t w, same_iff a t)

pub Edge-remove_wait_edge :
    (t h a b : TransactionId) (w : WaitsFor)
    → Edge (remove_wait_edge t h w) a b ↔ ((¬ ((a ≡ t) × (b ≡ h))) × Edge w a b)
unfolding remove_wait_edge
Edge-remove_wait_edge t h a b w = elim (Option-cases (BTreeMap.get t w)) [
  | inl absent ↦ ground (arith, same_iff a t)
  | inr (s, e) ↦ elim (List-cases (BTreeSet.remove h s)) [
    | inl empty ↦
        ground (arith, get-remove a t w, same_iff a t, same_iff b h, contains-remove b h s)
    | inr (x, rest, more) ↦
        ground
          (arith, get-insert a t (x ∷ rest) w, same_iff a t, same_iff b h, contains-remove b h s)
  ]
]

-- A relation that has only edges of `w` has only paths of `w`.
pub WaitPath-mono :
    {v w : WaitsFor} {y x : TransactionId}
    → ((a b : TransactionId) → Edge v a b → Edge w a b)
    → WaitPath v y x
    → WaitPath w y x
WaitPath-mono sub here = here
WaitPath-mono sub (step e p) = step (sub _ _ e) (WaitPath-mono sub p)

pub WaitPath-trans :
    {w : WaitsFor} {z y x : TransactionId} → WaitPath w y x → WaitPath w z y → WaitPath w z x
WaitPath-trans here q = q
WaitPath-trans (step e p) q = step e (WaitPath-trans p q)

-- A path of the extended graph avoids the new edge, or runs through it.
pub WaitPath-add_cases :
    {w : WaitsFor} {y : TransactionId} (t h : TransactionId) {x : TransactionId}
    → WaitPath (add_wait_edge t h w) y x
    → WaitPath w y x ⊎ WaitPath (add_wait_edge t h w) t x × WaitPath (add_wait_edge t h w) y h
WaitPath-add_cases t h here = inl here
WaitPath-add_cases {w} {y} t h {x} (step {b = b} e p) = elim ((Edge-add_wait_edge t h x b w).0 e) [
  | inl (at_t, at_h) ↦ inr (
    subst (WaitPath (add_wait_edge t h w) t) (sym at_t) here,
    subst (WaitPath (add_wait_edge t h w) y) at_h p,
  )
  | inr old ↦ elim (WaitPath-add_cases t h p) [
    | inl q ↦ inl (step old q)
    | inr (to_t, from_h) ↦ inr (step e to_t, from_h)
  ]
]

-- A path to `t` need not leave `t`, so an edge out of `t` adds none.
pub WaitPath-add_target :
    {w : WaitsFor} (t h : TransactionId) {x : TransactionId}
    → WaitPath (add_wait_edge t h w) t x
    → WaitPath w t x
WaitPath-add_target t h here = here
WaitPath-add_target {w} t h {x} (step {b = b} e p) = elim ((Edge-add_wait_edge t h x b w).0 e) [
  | inl (at_t, at_h) ↦ subst (WaitPath w t) (sym at_t) here
  | inr old ↦ step old (WaitPath-add_target t h p)
]

-- No transaction waits, directly or through others, for itself.
abbrev pub IsAcyclic : WaitsFor → Type 0
IsAcyclic w = (a b : TransactionId) → Edge w a b → ¬ WaitPath w a b

pub IsAcyclic-mono :
    {v w : WaitsFor} → ((a b : TransactionId) → Edge v a b → Edge w a b) → IsAcyclic w → IsAcyclic v
IsAcyclic-mono sub acyclic a b e p = acyclic a b (sub a b e) (WaitPath-mono sub p)

-- An edge closes a cycle only where a path already leads back.
pub IsAcyclic-add :
    (t h : TransactionId) (w : WaitsFor)
    → ¬ WaitPath (add_wait_edge t h w) t h
    → IsAcyclic w
    → IsAcyclic (add_wait_edge t h w)
IsAcyclic-add t h w no_return acyclic a b e p = elim ((Edge-add_wait_edge t h a b w).0 e) [
  | inl (at_t, at_h) ↦ no_return (
      subst (λ x. WaitPath (add_wait_edge t h w) x h) at_t
        (subst (WaitPath (add_wait_edge t h w) a) at_h p))
  | inr old ↦ elim (WaitPath-add_cases t h p) [
    | inl q ↦ acyclic a b old q
    | inr (to_t, from_h) ↦ no_return (WaitPath-trans from_h (step e to_t))
  ]
]
