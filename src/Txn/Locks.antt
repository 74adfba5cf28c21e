-- ===== src/Txn/Locks.antt =====
-- crates/rnmdb-txn/src/lib.rs, `LockTarget`, `LockResult` and `LockManager`.
-- A method that takes `&mut self` returns its result and the manager that it leaves behind, on
-- the error path too. The stack of `has_wait_path` has its top at the head of the list.
pub mod Search
pub mod Paths
pub mod Acquire
pub mod Release
pub mod Invariant
mod Tests
use rnov_modular_db.Base.{
  ℕ, zero, suc, ◌+◌, ◌≡◌, refl, Bool, true, false, not, Option, none, some, List, [], ◌∷◌, length,
  ◌==◌, if◌then◌else◌, ap,
}
use rnov_modular_db.Common.{Result, ok, err, ErrorKind, invalid_input}
use rnov_modular_db.Collections.Order.{TotalOrder, order_by, nat_order, pair_order}
use rnov_modular_db.Collections.BTreeMap
use rnov_modular_db.Collections.BTreeMap.{BTreeMap}
use rnov_modular_db.Collections.BTreeSet
use rnov_modular_db.Collections.BTreeSet.{BTreeSet}

-- `TransactionId`, a `u64`
abbrev pub TransactionId : Type 0
TransactionId = ℕ

pub data LockTarget : Type 0 where
  row : ℕ → ℕ → LockTarget

-- The derived `Ord` of `LockTarget` compares its fields in turn.
abbrev pub target_fields : LockTarget → ℕ × ℕ
target_fields (row relation_id row_id) = (relation_id, row_id)

pub target_fields_injective : (x y : LockTarget) → target_fields x ≡ target_fields y → x ≡ y
target_fields_injective (row a b) (row c d) h = ap (λ (p : ℕ × ℕ). row p.0 p.1) h

instance abbrev pub target_order : TotalOrder LockTarget
target_order = order_by target_fields target_fields_injective

pub data LockResult : Type 0 where
  acquired : LockResult
  waiting : TransactionId → LockResult

abbrev pub WaitsFor : Type 0
WaitsFor = BTreeMap TransactionId (BTreeSet TransactionId)

pub record LockManager : Type 0 where
  pub exclusive : BTreeMap LockTarget TransactionId
  pub waits_for : WaitsFor

-- `LockManager::new`
abbrev pub new : LockManager
new = record { exclusive = []; waits_for = [] }

-- The entry of a transaction, and the empty set where there is none.
abbrev pub blockers : TransactionId → WaitsFor → BTreeSet TransactionId
blockers t w = elim (BTreeMap.get t w) [ none ↦ [] | some s ↦ s ]

-- `self.waits_for.entry(waiter).or_default().insert(blocker)`
pub add_wait_edge : TransactionId → TransactionId → WaitsFor → WaitsFor
add_wait_edge waiter blocker w =
    BTreeMap.insert waiter (BTreeSet.insert blocker (blockers waiter w)) w

pub remove_wait_edge : TransactionId → TransactionId → WaitsFor → WaitsFor
remove_wait_edge waiter blocker w = elim (BTreeMap.get waiter w) [
  | none ↦ w
  | some s ↦ elim (BTreeSet.remove blocker s) [
    | [] ↦ BTreeMap.remove waiter w
    | b ∷ s' ↦ BTreeMap.insert waiter (b ∷ s') w
  ]
]

pub clear_wait : TransactionId → WaitsFor → WaitsFor
clear_wait t w = BTreeMap.remove t w

-- `stack.extend(next)`: the last element ends on top.
abbrev pub extend : List ℕ → List ℕ → List ℕ
extend [] stack = stack
extend (x ∷ xs) stack = extend xs (x ∷ stack)

-- The `while let` loop of `has_wait_path`. `seen.insert(current)` is made on every round, and
-- reports whether `current` was new.
pub search :
    ℕ → WaitsFor → TransactionId → BTreeSet TransactionId → List TransactionId → Option Bool
search zero w target seen stack = none
search (suc fuel) w target seen [] = some false
search (suc fuel) w target seen (current ∷ stack) =
    let rest =
      search fuel w target (BTreeSet.insert current seen)
        (if BTreeSet.contains current seen then stack else extend (blockers current w) stack) in
    if current == target then some true else rest

-- The number of edges. Each round pops an entry, and each transaction is expanded once.
abbrev pub edge_count : WaitsFor → ℕ
edge_count [] = 0
edge_count ((t, s) ∷ w) = length s + edge_count w

-- With this fuel `search` ends by itself (`Search.search_ends`), so `none` does not arise.
pub has_wait_path : WaitsFor → TransactionId → TransactionId → Bool
has_wait_path w start target = elim (search (edge_count w + 2) w target [] (start ∷ [])) [
  | none ↦ false
  | some found ↦ found
]

-- The branch of `acquire_exclusive` where another transaction holds the lock.
pub wait_for : TransactionId → TransactionId → LockManager → Result LockResult × LockManager
wait_for t holder m =
    let waits = add_wait_edge t holder m.waits_for in
    if has_wait_path waits holder t
    then (err invalid_input, record m { waits_for = remove_wait_edge t holder waits })
    else (ok (waiting holder), record m { waits_for = waits })

-- The branch where the lock is free.
pub grant : TransactionId → LockTarget → LockManager → LockManager
grant t target m = record {
  exclusive = BTreeMap.insert target t m.exclusive;
  waits_for = clear_wait t m.waits_for;
}

pub acquire_exclusive : TransactionId → LockTarget → LockManager → Result LockResult × LockManager
acquire_exclusive t target m = elim (BTreeMap.get target m.exclusive) [
  | none ↦ (ok acquired, grant t target m)
  | some holder ↦ if holder == t then (ok acquired, m) else wait_for t holder m
]

pub release_all : TransactionId → LockManager → LockManager
release_all t m = record {
  exclusive = BTreeMap.retain (λ _ holder. not (holder == t)) m.exclusive;
  waits_for = BTreeMap.map_values (BTreeSet.remove t) (BTreeMap.remove t m.waits_for);
}
