-- ===== src/Txn/Manager/Snapshots.antt =====
-- What a snapshot records, and how long a transaction keeps it.
use rnov_modular_db.Base.{
  ◌≡◌, ◌≢◌, refl, ◌↔◌, inl, inr, true, false, none, some, List, [], ◌∷◌, arith, Option-cases, ◌∙◌,
  sym,
}
use rnov_modular_db.Common.{ok}
use rnov_modular_db.Collections.Order.{same_iff, nat_order}
use rnov_modular_db.Collections.BTreeMap
use rnov_modular_db.Collections.BTreeMap.{BTreeMap, get-insert, get-Above}
use rnov_modular_db.Collections.BTreeSet
use rnov_modular_db.Collections.BTreeSet.{contains-collect}
use rnov_modular_db.Txn.Locks.{TransactionId}
use rnov_modular_db.Txn.Snapshot.{
  IsolationLevel, read_committed, TransactionState, active, committed, Snapshot, is_committed,
  is_active,
}
use rnov_modular_db.Txn.Manager.{
  TransactionEntry, TransactionManager, state, state_eq, ids_in, current_snapshot, snapshot, pin,
  pinned_snapshot_for, snapshot_at, snapshot_for,
}
use rnov_modular_db.Txn.Manager.Invariant.{
  IsValid, TxnCall, take_snapshot_for, step, run, HasRoom, step-Effect, Effect-IsValid, run-entry,
}

ids_in-Above :
    (s : TransactionState) (t : TransactionId) (m : BTreeMap TransactionId TransactionEntry)
    → BTreeMap.Above t m
    → BTreeSet.contains t (ids_in s m) ≡ false
unfolding ids_in
ids_in-Above s t [] a = refl
ids_in-Above s t ((u, e) ∷ m) a = ground (arith, ids_in-Above s t m)

contains-ids_in :
    (s : TransactionState) (t : TransactionId) (m : BTreeMap TransactionId TransactionEntry)
    → BTreeMap.IsSorted m
    → BTreeSet.contains t (ids_in s m)
      ≡ elim (BTreeMap.get t m) [ none ↦ false | some e ↦ state_eq e.state s ]
unfolding ids_in
contains-ids_in s t [] sorted = refl
contains-ids_in s t ((u, e) ∷ m) sorted =
    ground (arith, contains-ids_in s t m sorted.1, ids_in-Above s u m sorted.0, same_iff t u)

-- A snapshot taken now holds a transaction committed exactly if it is committed now, and active
-- exactly if it is active now. So an aborted or unknown transaction is in neither set.
pub snapshot_exact :
    (level : IsolationLevel) (m : TransactionManager) (t : TransactionId)
    → IsValid m
    → ((is_committed (current_snapshot level m) t ≡ true) ↔ (state t m ≡ some committed))
      × ((is_active (current_snapshot level m) t ≡ true) ↔ (state t m ≡ some active))
snapshot_exact level m t v = ground (
  arith,
  contains-collect t (ids_in committed m.transactions),
  contains-collect t (ids_in active m.transactions),
  contains-ids_in committed t m.transactions v.sorted,
  contains-ids_in active t m.transactions v.sorted,
)

-- Under read committed every call of `snapshot_for` by an active transaction takes the snapshot
-- of that moment.
pub read_committed_current :
    (t : TransactionId) (e : TransactionEntry) (m : TransactionManager)
    → BTreeMap.get t m.transactions ≡ some e
    → e.state ≡ active
    → e.isolation_level ≡ read_committed
    → (snapshot_for t m).0 ≡ ok (current_snapshot read_committed m)
unfolding snapshot_for snapshot_at snapshot
read_committed_current t e m known is_now level = ground arith

pinned_after :
    (t : TransactionId) (e : TransactionEntry) (m : TransactionManager) (s : Snapshot)
    → BTreeMap.get t m.transactions ≡ some e
    → e.isolation_level ≢ read_committed
    → (snapshot_for t m).0 ≡ ok s
    → (BTreeMap.get t (snapshot_for t m).1.transactions
        ≡ some (record e { pinned_snapshot = some s }))
      × ((snapshot_for t m).1.next_transaction_id ≡ m.next_transaction_id)
unfolding snapshot_for snapshot_at pinned_snapshot_for snapshot pin
pinned_after t e m s known level taken = elim (Option-cases e.pinned_snapshot) [
  | inl unpinned ↦
      ground
        (arith, get-insert t t (record e { pinned_snapshot = some s }) m.transactions, same_iff t t)
  | inr (p, pinned) ↦ ground arith
]

snapshot_for_pinned :
    (t : TransactionId) (e : TransactionEntry) (m : TransactionManager) (s : Snapshot)
    → BTreeMap.get t m.transactions ≡ some e
    → e.state ≡ active
    → e.isolation_level ≢ read_committed
    → e.pinned_snapshot ≡ some s
    → snapshot_for t m ≡ (ok s, m)
unfolding snapshot_for snapshot_at pinned_snapshot_for
snapshot_for_pinned t e m s known is_now level pinned = ground arith

-- Under repeatable read and serializable a transaction keeps its snapshot. Take a valid manager and
-- a `snapshot_for` of the transaction that succeeds, and after it any calls, such that all of these
-- are fewer than the transaction ids left below 2 ^ 64, after which the counter wraps. If the
-- transaction is active then, another `snapshot_for` returns the same snapshot and changes nothing.
pub repeatable_snapshot :
    (calls : List TxnCall) (t : TransactionId) (e : TransactionEntry) (m : TransactionManager)
    (s : Snapshot)
    → IsValid m
    → HasRoom (take_snapshot_for t ∷ calls) m
    → BTreeMap.get t m.transactions ≡ some e
    → e.isolation_level ≢ read_committed
    → (snapshot_for t m).0 ≡ ok s
    → state t (run calls (snapshot_for t m).1) ≡ some active
    → snapshot_for t (run calls (snapshot_for t m).1) ≡ (ok s, run calls (snapshot_for t m).1)
unfolding step
repeatable_snapshot calls t e m s v room known level taken still =
    let after = (snapshot_for t m).1 in
    let (now, same_next) = pinned_after t e m s known level taken in
    let (valid, _) =
      Effect-IsValid {m = m} {m' = after} (omega arith) v (step-Effect (take_snapshot_for t) m) in
    let (e', later, evolves) = (run-entry calls after (omega arith) valid).1 t _ now in
    snapshot_for_pinned t e' (run calls after) s later (ground arith)
      (λ h. level (sym evolves.level ∙ h)) (evolves.pinned s refl)
