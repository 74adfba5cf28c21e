-- ===== src/Txn/Locks/Search.antt =====
-- The search for a wait path ends within its fuel, and decides whether there is a path.
use rnov_modular_db.Base.{
  ℕ, zero, suc, ◌+◌, ◌≤◌, ◌≡◌, ◌≢◌, refl, ◌↔◌, ◌⊎◌, inl, inr, true, false, none, some, List, [],
  ◌∷◌, length, arith, ◌==◌, if◌then◌else◌, In, Bool-cases, sym, subst, ==_iff,
}
use rnov_modular_db.Collections.Order.{same_iff, nat_order}
use rnov_modular_db.Collections.BTreeSet
use rnov_modular_db.Collections.BTreeSet.{BTreeSet, contains-insert}
use rnov_modular_db.Txn.Locks.{
  TransactionId, WaitsFor, blockers, extend, search, edge_count, has_wait_path,
}

-- `a` waits for `b`.
abbrev pub Edge : WaitsFor → TransactionId → TransactionId → Type 0
Edge w a b = BTreeSet.contains b (blockers a w) ≡ true

-- The paths of the waits-for graph that end at `target`.
pub data WaitPath (w : WaitsFor) (target : TransactionId) : TransactionId → Type 0 where
  here : WaitPath w target target
  step : {a b : TransactionId} → Edge w a b → WaitPath w target b → WaitPath w target a

-- What is still to be pushed: the blockers of the transactions that were not yet expanded.
abbrev unexpanded : BTreeSet TransactionId → WaitsFor → ℕ
unexpanded seen [] = 0
unexpanded seen ((k, s) ∷ w) =
    (if BTreeSet.contains k seen then 0 else length s) + unexpanded seen w

unexpanded-insert-le :
    (c : TransactionId) (seen : BTreeSet TransactionId) (w : WaitsFor)
    → unexpanded (BTreeSet.insert c seen) w ≤ unexpanded seen w
unexpanded-insert-le c seen [] = omega arith
unexpanded-insert-le c seen ((k, s) ∷ w) =
    ground (arith, unexpanded-insert-le c seen w, contains-insert k c seen)

unexpanded-insert :
    (c : TransactionId) (seen : BTreeSet TransactionId) (w : WaitsFor)
    → BTreeSet.contains c seen ≡ false
    → unexpanded (BTreeSet.insert c seen) w + length (blockers c w) ≤ unexpanded seen w
unexpanded-insert c seen [] h = omega arith
unexpanded-insert c seen ((k, s) ∷ w) h =
    ground
      (arith, unexpanded-insert c seen w h, unexpanded-insert-le c seen w, contains-insert k c seen)

length-extend : (xs stack : List ℕ) → length (extend xs stack) ≡ length xs + length stack
length-extend [] stack = omega arith
length-extend (x ∷ xs) stack = omega (arith, length-extend xs (x ∷ stack))

-- With fuel for what is on the stack and for what is still to be pushed, the loop ends by itself.
search_ends :
    (fuel : ℕ) (w : WaitsFor) (target : TransactionId) (seen : BTreeSet TransactionId)
    (stack : List TransactionId)
    → length stack + unexpanded seen w + 1 ≤ fuel
    → search fuel w target seen stack ≢ none
unfolding search
search_ends zero w target seen stack h = absurd (omega arith)
search_ends (suc fuel) w target seen [] h = λ e. cc
search_ends (suc fuel) w target seen (c ∷ stack) h = elim (Bool-cases (BTreeSet.contains c seen)) [
  | inl old ↦ rw old (
      ground (
        arith,
        search_ends fuel w target (BTreeSet.insert c seen) stack,
        unexpanded-insert-le c seen w,
      ))
  | inr new ↦ rw new (
      ground (
        arith,
        search_ends fuel w target (BTreeSet.insert c seen) (extend (blockers c w) stack),
        unexpanded-insert c seen w new,
        length-extend (blockers c w) stack,
      ))
]

In-extend :
    (v : ℕ) (xs stack : List ℕ)
    → In v (extend xs stack) ↔ ((BTreeSet.contains v xs ≡ true) ⊎ In v stack)
In-extend v [] stack = ground arith
In-extend v (x ∷ xs) stack = ground (arith, In-extend v xs (x ∷ stack), same_iff v x)

-- What is pushed for `c`.
abbrev pushed :
    WaitsFor → BTreeSet TransactionId → TransactionId → List TransactionId → List TransactionId
pushed w seen c stack = if BTreeSet.contains c seen then stack else extend (blockers c w) stack

In-pushed :
    (w : WaitsFor) (seen : BTreeSet TransactionId) (c : TransactionId) (stack : List TransactionId)
    (v : TransactionId)
    → In v (pushed w seen c stack)
    → Edge w c v ⊎ In v stack
In-pushed w seen c stack v h = ground (arith, In-extend v (blockers c w) stack)

-- A find is a path from something that stood on the stack.
search_sound :
    (fuel : ℕ) (w : WaitsFor) (target : TransactionId) (seen : BTreeSet TransactionId)
    (stack : List TransactionId)
    → search fuel w target seen stack ≡ some true
    → (v : TransactionId) × In v stack × WaitPath w target v
unfolding search
search_sound zero w target seen stack h = absurd (cc)
search_sound (suc fuel) w target seen [] h = absurd (cc)
search_sound (suc fuel) w target seen (c ∷ stack) h = elim (Bool-cases (c == target)) [
  | inl e ↦ (c, inl refl, subst (WaitPath w target) (sym ((==_iff c target).0 e)) here)
  | inr ne ↦
      let (v, m, p) =
        search_sound fuel w target (BTreeSet.insert c seen) (pushed w seen c stack)
          (ground arith) in
      elim (In-pushed w seen c stack v m) [
        | inl edge ↦ (c, inl refl, step edge p)
        | inr old ↦ (v, inr old, p)
      ]
]

-- Every transaction that was expanded is not the target, and its blockers are expanded or stacked.
abbrev IsClosed : WaitsFor → TransactionId → BTreeSet TransactionId → List TransactionId → Type 0
IsClosed w target seen stack =
    (u : TransactionId)
    → BTreeSet.contains u seen ≡ true
    → (u ≢ target)
      × ((v : TransactionId) → Edge w u v → (BTreeSet.contains v seen ≡ true) ⊎ In v stack)

-- Everything seen or stacked is seen or stacked after a round.
kept :
    (w : WaitsFor) (seen : BTreeSet TransactionId) (c : TransactionId) (stack : List TransactionId)
    (v : TransactionId)
    → (BTreeSet.contains v seen ≡ true) ⊎ In v (c ∷ stack)
    → (BTreeSet.contains v (BTreeSet.insert c seen) ≡ true) ⊎ In v (pushed w seen c stack)
kept w seen c stack v h =
    ground (arith, contains-insert v c seen, same_iff v c, In-extend v (blockers c w) stack)

IsClosed-step :
    (w : WaitsFor) (target : TransactionId) (seen : BTreeSet TransactionId) (c : TransactionId)
    (stack : List TransactionId)
    → c ≢ target
    → IsClosed w target seen (c ∷ stack)
    → IsClosed w target (BTreeSet.insert c seen) (pushed w seen c stack)
IsClosed-step w target seen c stack ne closed u h = elim (Bool-cases (BTreeSet.contains u seen)) [
  | inl old ↦
      let (differs, next) = closed u old in (differs, λ v e. kept w seen c stack v (next v e))
  | inr new ↦
      let is_c : u ≡ c = ground (arith, contains-insert u c seen, same_iff u c) in
      (ground arith, λ v e. inr (ground (arith, In-extend v (blockers u w) stack)))
]

no_path :
    {w : WaitsFor} {target v : TransactionId} (seen : BTreeSet TransactionId)
    → IsClosed w target seen []
    → BTreeSet.contains v seen ≡ true
    → ¬ WaitPath w target v
no_path seen closed h here = (closed _ h).0 refl
no_path seen closed h (step {a} {b} e p) = elim ((closed a h).1 b e) [
  | inl s ↦ no_path seen closed s p
  | inr i ↦ absurd i
]

-- A miss excludes a path from everything that was seen or stacked.
search_complete :
    (fuel : ℕ) (w : WaitsFor) (target : TransactionId) (seen : BTreeSet TransactionId)
    (stack : List TransactionId)
    → IsClosed w target seen stack
    → search fuel w target seen stack ≡ some false
    → (v : TransactionId) → (BTreeSet.contains v seen ≡ true) ⊎ In v stack
    → ¬ WaitPath w target v
unfolding search
search_complete zero w target seen stack closed h v m = absurd (cc)
search_complete (suc fuel) w target seen [] closed h v m = elim m [
  | inl s ↦ no_path seen closed s
  | inr i ↦ absurd i
]
search_complete (suc fuel) w target seen (c ∷ stack) closed h v m =
    elim (Bool-cases (c == target)) [
      | inl e ↦ absurd (ground arith)
      | inr ne ↦
          search_complete fuel w target (BTreeSet.insert c seen) (pushed w seen c stack)
            (IsClosed-step w target seen c stack (ground arith) closed) (ground arith) v
            (kept w seen c stack v m)
    ]

unexpanded-nil : (w : WaitsFor) → unexpanded [] w ≡ edge_count w
unexpanded-nil [] = refl
unexpanded-nil ((k, s) ∷ w) = omega (arith, unexpanded-nil w)

has_wait_path_sound :
    (w : WaitsFor) (start target : TransactionId)
    → has_wait_path w start target ≡ true
    → WaitPath w target start
unfolding has_wait_path
has_wait_path_sound w start target h =
    let (v, m, p) = search_sound (edge_count w + 2) w target [] (start ∷ []) (ground arith) in
    elim m [ inl e ↦ subst (WaitPath w target) e p | inr i ↦ absurd i ]

has_wait_path_complete :
    (w : WaitsFor) (start target : TransactionId)
    → has_wait_path w start target ≡ false
    → ¬ WaitPath w target start
unfolding has_wait_path
has_wait_path_complete w start target h =
    search_complete (edge_count w + 2) w target [] (start ∷ []) (λ u e. absurd (cc))
      (ground (arith, search_ends (edge_count w + 2) w target [] (start ∷ []), unexpanded-nil w))
      start (inr (inl refl))

-- `has_wait_path` answers for every graph and pair of transactions, and its answer is true
-- exactly when a path of waits-for edges leads from `start` to `target`.
pub has_wait_path_decides :
    (w : WaitsFor) (start target : TransactionId)
    → ((has_wait_path w start target ≡ true) ↔ WaitPath w target start)
has_wait_path_decides w start target = (
  has_wait_path_sound w start target,
  λ p. elim (Bool-cases (has_wait_path w start target)) [
    | inl found ↦ found
    | inr missed ↦ absurd (has_wait_path_complete w start target missed p)
  ],
)
