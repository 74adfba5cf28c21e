-- ===== src/Txn/Locks/Release.antt =====
-- `release_all` on the locks and on the waits.
use rnov_modular_db.Base.{◌≡◌, ◌≢◌, ◌↔◌, not, some, arith, ◌==◌}
use rnov_modular_db.Collections.Order.{same_iff, nat_order}
use rnov_modular_db.Collections.BTreeMap
use rnov_modular_db.Collections.BTreeMap.{get-retain, get-remove, get-map_values}
use rnov_modular_db.Collections.BTreeSet
use rnov_modular_db.Collections.BTreeSet.{contains-remove}
use rnov_modular_db.Txn.Locks.{
  TransactionId, LockTarget, target_order, LockManager, blockers, release_all,
}
use rnov_modular_db.Txn.Locks.Search.{Edge}

-- After `release_all` a lock is free if it was free or held by the transaction, and keeps its
-- holder otherwise.
pub release_all_locks :
    (t : TransactionId) (m : LockManager)
    → BTreeMap.IsSorted m.exclusive
    → (x : LockTarget) (h : TransactionId)
    → (BTreeMap.get x (release_all t m).exclusive ≡ some h)
      ↔ ((BTreeMap.get x m.exclusive ≡ some h) × (h ≢ t))
unfolding release_all
release_all_locks t m sorted x h =
    ground (arith, get-retain (λ _ holder. not (holder == t)) x m.exclusive sorted)

-- After `release_all` the waits are those that neither start nor end at the transaction.
pub release_all_waits :
    (t : TransactionId) (m : LockManager) (a b : TransactionId)
    → Edge (release_all t m).waits_for a b ↔ (Edge m.waits_for a b × (a ≢ t) × (b ≢ t))
unfolding release_all
release_all_waits t m a b = ground (
  arith,
  get-map_values (BTreeSet.remove t) a (BTreeMap.remove t m.waits_for),
  get-remove a t m.waits_for,
  same_iff a t,
  same_iff b t,
  contains-remove b t (blockers a m.waits_for),
)
