-- ===== src/Txn/Snapshot.antt =====
-- crates/rnmdb-txn/src/lib.rs, `IsolationLevel`, `TransactionState`, `Transaction` and `Snapshot`.
use rnov_modular_db.Base.{ℕ, Bool}
use rnov_modular_db.Collections.Order.{nat_order}
use rnov_modular_db.Collections.BTreeSet
use rnov_modular_db.Collections.BTreeSet.{BTreeSet}
use rnov_modular_db.Txn.Locks.{TransactionId}

pub data IsolationLevel : Type 0 where
  read_committed repeatable_read serializable : IsolationLevel

pub data TransactionState : Type 0 where
  active committed aborted : TransactionState

pub record Transaction : Type 0 where
  pub id : TransactionId
  pub isolation_level : IsolationLevel

pub record Snapshot : Type 0 where
  pub snapshot_id : ℕ
  pub isolation_level : IsolationLevel
  pub committed_set : BTreeSet TransactionId
  pub active_set : BTreeSet TransactionId

abbrev pub is_committed : Snapshot → TransactionId → Bool
is_committed s t = BTreeSet.contains t s.committed_set

abbrev pub is_active : Snapshot → TransactionId → Bool
is_active s t = BTreeSet.contains t s.active_set
