-- ===== src/Txn/Manager.antt =====
-- crates/rnmdb-txn/src/lib.rs, `TransactionManager` and `TransactionEntry`.
-- A method returns its result and the manager that it leaves. The `u64` counters wrap, as they do
-- in a release build.
pub mod Invariant
pub mod States
pub mod Snapshots
mod Tests
use rnov_modular_db.Base.{
  ℕ, ◌+◌, ◌%◌, ◌^◌, Bool, true, false, Option, none, some, List, [], ◌∷◌, if◌then◌else◌,
}
use rnov_modular_db.Common.{Result, ok, err, invalid_input, not_found}
use rnov_modular_db.Collections.Order.{nat_order}
use rnov_modular_db.Collections.BTreeMap
use rnov_modular_db.Collections.BTreeMap.{BTreeMap}
use rnov_modular_db.Collections.BTreeSet
use rnov_modular_db.Txn.Locks.{TransactionId}
use rnov_modular_db.Txn.Snapshot.{
  IsolationLevel, read_committed, repeatable_read, serializable, TransactionState, active,
  committed, aborted, Transaction, Snapshot,
}

pub record TransactionEntry : Type 0 where
  pub state : TransactionState
  pub isolation_level : IsolationLevel
  pub pinned_snapshot : Option Snapshot

pub record TransactionManager : Type 0 where
  pub next_transaction_id : ℕ
  pub next_snapshot_id : ℕ
  pub transactions : BTreeMap TransactionId TransactionEntry

-- `TransactionManager::new`
abbrev pub new : TransactionManager
new = record { next_transaction_id = 1; next_snapshot_id = 1; transactions = [] }

-- `TransactionManager::begin`
pub begin : IsolationLevel → TransactionManager → Result Transaction × TransactionManager
begin level m =
    let id = m.next_transaction_id in
    (
      ok (record { id = id; isolation_level = level }),
      record m {
        next_transaction_id = (m.next_transaction_id + 1) % 2 ^ 64;
        transactions =
            BTreeMap.insert id
              (record { state = active; isolation_level = level; pinned_snapshot = none })
              m.transactions;
      },
    )

-- `TransactionManager::state`
abbrev pub state : TransactionId → TransactionManager → Option TransactionState
state t m = elim (BTreeMap.get t m.transactions) [ none ↦ none | some e ↦ some e.state ]

abbrev pub state_eq : TransactionState → TransactionState → Bool
state_eq active active = true
state_eq committed committed = true
state_eq aborted aborted = true
state_eq _ _ = false

-- `TransactionManager::finish`
pub finish :
    TransactionId → TransactionState → TransactionManager → Result (Unit {0}) × TransactionManager
finish t new_state m = elim (BTreeMap.get t m.transactions) [
  | none ↦ (err not_found, m)
  | some entry ↦
      if state_eq entry.state active
      then (
        ok tt,
        record m {
          transactions = BTreeMap.insert t (record entry { state = new_state }) m.transactions;
        },
      )
      else (err invalid_input, m)
]

-- `TransactionManager::commit`
pub commit : TransactionId → TransactionManager → Result (Unit {0}) × TransactionManager
unfolding finish
commit t m = finish t committed m

-- `TransactionManager::abort`
pub abort : TransactionId → TransactionManager → Result (Unit {0}) × TransactionManager
unfolding finish
abort t m = finish t aborted m

-- The ids of the entries in a given state, as `filter_map` lists them.
pub ids_in : TransactionState → BTreeMap TransactionId TransactionEntry → List TransactionId
ids_in s [] = []
ids_in s ((t, e) ∷ m) = if state_eq e.state s then t ∷ ids_in s m else ids_in s m

-- The snapshot that `TransactionManager::snapshot` builds.
abbrev pub current_snapshot : IsolationLevel → TransactionManager → Snapshot
current_snapshot level m = record {
  snapshot_id = m.next_snapshot_id;
  isolation_level = level;
  committed_set = BTreeSet.collect (ids_in committed m.transactions);
  active_set = BTreeSet.collect (ids_in active m.transactions);
}

-- `TransactionManager::snapshot`
pub snapshot : IsolationLevel → TransactionManager → Result Snapshot × TransactionManager
snapshot level m = (
  ok (current_snapshot level m),
  record m { next_snapshot_id = (m.next_snapshot_id + 1) % 2 ^ 64 },
)

-- The write of a snapshot into its transaction's entry.
pub pin : TransactionId → Snapshot → TransactionManager → TransactionManager
pin t s m = elim (BTreeMap.get t m.transactions) [
  | none ↦ m
  | some entry ↦ record m {
    transactions = BTreeMap.insert t (record entry { pinned_snapshot = some s }) m.transactions;
  }
]

-- The last arm of `snapshot_for`: a pinned snapshot is reused, and a new one is pinned.
pub pinned_snapshot_for :
    TransactionId
    → IsolationLevel
    → Option Snapshot
    → TransactionManager
    → Result Snapshot × TransactionManager
pinned_snapshot_for t level (some s) m = (ok s, m)
pinned_snapshot_for t level none m = elim (snapshot level m).0 [
  | ok s ↦ (ok s, pin t s (snapshot level m).1)
  | err e ↦ (err e, (snapshot level m).1)
]

-- The `match` on the isolation level.
pub snapshot_at :
    IsolationLevel
    → TransactionId
    → Option Snapshot
    → TransactionManager
    → Result Snapshot × TransactionManager
snapshot_at read_committed t pinned m = snapshot read_committed m
snapshot_at repeatable_read t pinned m = pinned_snapshot_for t repeatable_read pinned m
snapshot_at serializable t pinned m = pinned_snapshot_for t serializable pinned m

-- `TransactionManager::snapshot_for`
pub snapshot_for : TransactionId → TransactionManager → Result Snapshot × TransactionManager
snapshot_for t m = elim (BTreeMap.get t m.transactions) [
  | none ↦ (err not_found, m)
  | some entry ↦
      if state_eq entry.state active
      then snapshot_at entry.isolation_level t entry.pinned_snapshot m
      else (err invalid_input, m)
]
