-- ===== src/Txn/Locks/Invariant.antt =====
-- What holds of the lock manager after any sequence of calls.
use rnov_modular_db.Base.{◌≡◌, ◌∙◌, ◌⊎◌, inl, inr, some, List, [], ◌∷◌, arith}
use rnov_modular_db.Collections.BTreeMap
use rnov_modular_db.Collections.BTreeMap.{insert-IsSorted, retain-IsSorted, get-insert_ne}
use rnov_modular_db.Txn.Locks.{
  TransactionId, LockTarget, target_order, LockManager, new, add_wait_edge, grant, wait_for,
  acquire_exclusive, release_all,
}
use rnov_modular_db.Txn.Locks.Search.{Edge}
use rnov_modular_db.Txn.Locks.Paths.{
  Edge-add_wait_edge, Edge-clear_wait, Edge-remove_wait_edge, IsAcyclic, IsAcyclic-mono,
}
use rnov_modular_db.Txn.Locks.Acquire.{branch, free, own, other, acquire_exclusive-IsAcyclic}
use rnov_modular_db.Txn.Locks.Release.{release_all_locks, release_all_waits}

-- Every transaction that another waits for holds a lock.
abbrev pub IsHeld : LockManager → Type 0
IsHeld m =
    (a b : TransactionId)
    → Edge m.waits_for a b
    → (x : LockTarget) × (BTreeMap.get x m.exclusive ≡ some b)

pub record IsValid (m : LockManager) : Type 0 where
  pub sorted : BTreeMap.IsSorted m.exclusive
  pub acyclic : IsAcyclic m.waits_for
  pub held : IsHeld m

wait_for_edges :
    (t h : TransactionId) (m : LockManager) (a b : TransactionId)
    → Edge (wait_for t h m).1.waits_for a b
    → ((a ≡ t) × (b ≡ h)) ⊎ Edge m.waits_for a b
unfolding wait_for
wait_for_edges t h m a b edge =
    let added = add_wait_edge t h m.waits_for in
    ground (arith, Edge-add_wait_edge t h a b m.waits_for, Edge-remove_wait_edge t h a b added)

wait_for_locks :
    (t h : TransactionId) (m : LockManager) → (wait_for t h m).1.exclusive ≡ m.exclusive
unfolding wait_for
wait_for_locks t h m = ground arith

acquire_exclusive-IsHeld :
    (t : TransactionId) (x : LockTarget) (m : LockManager)
    → IsHeld m
    → IsHeld (acquire_exclusive t x m).1
unfolding grant
acquire_exclusive-IsHeld t x m held = elim (branch t x m) [
  | free e is ↦ rw is λ a b edge.
      let (y, by_b) = held a b ((Edge-clear_wait t a b m.waits_for).0 edge).1 in
      (y, get-insert_ne y x t m.exclusive (λ same_target. cc (by_b, e, same_target)) ∙ by_b)
  | own e is ↦ rw is held
  | other h e ne is ↦
      rw (is, wait_for_locks t h m)
        λ a b edge. elim (wait_for_edges t h m a b edge) [
          | inl (at_t, at_h) ↦ (x, ground arith)
          | inr old ↦ held a b old
        ]
]

acquire_exclusive-IsSorted :
    (t : TransactionId) (x : LockTarget) (m : LockManager)
    → BTreeMap.IsSorted m.exclusive
    → BTreeMap.IsSorted (acquire_exclusive t x m).1.exclusive
unfolding grant
acquire_exclusive-IsSorted t x m sorted = elim (branch t x m) [
  | free e is ↦ rw is (insert-IsSorted x t m.exclusive sorted)
  | own e is ↦ rw is sorted
  | other h e ne is ↦ rw (is, wait_for_locks t h m) sorted
]

pub acquire_exclusive-IsValid :
    (t : TransactionId) (x : LockTarget) (m : LockManager)
    → IsValid m
    → IsValid (acquire_exclusive t x m).1
acquire_exclusive-IsValid t x m v = record {
  sorted = acquire_exclusive-IsSorted t x m v.sorted;
  acyclic = acquire_exclusive-IsAcyclic t x m v.acyclic;
  held = acquire_exclusive-IsHeld t x m v.held;
}

pub release_all-IsValid :
    (t : TransactionId) (m : LockManager) → IsValid m → IsValid (release_all t m)
release_all-IsValid t m v = record {
  sorted = unfold release_all in (retain-IsSorted _ m.exclusive v.sorted);
  acyclic = IsAcyclic-mono (λ a b edge. ((release_all_waits t m a b).0 edge).0) v.acyclic;
  held = λ a b edge.
      let (old, _, ne) = (release_all_waits t m a b).0 edge in
      let (x, by_b) = v.held a b old in (x, (release_all_locks t m v.sorted x b).1 (by_b, ne));
}

-- The calls of a client.
pub data LockCall : Type 0 where
  acquire : TransactionId → LockTarget → LockCall
  release : TransactionId → LockCall

unfoldable pub run : List LockCall → LockManager → LockManager
run [] m = m
run (acquire t x ∷ calls) m = run calls (acquire_exclusive t x m).1
run (release t ∷ calls) m = run calls (release_all t m)

run-IsValid : (calls : List LockCall) (m : LockManager) → IsValid m → IsValid (run calls m)
unfolding run
run-IsValid [] m v = v
run-IsValid (acquire t x ∷ calls) m v = run-IsValid calls _ (acquire_exclusive-IsValid t x m v)
run-IsValid (release t ∷ calls) m v = run-IsValid calls _ (release_all-IsValid t m v)

-- After any sequence of acquisitions and releases from the empty manager the waits-for graph has
-- no cycle, every transaction that is waited for holds a lock, and the lock table is sorted.
pub run-new-IsValid : (calls : List LockCall) → IsValid (run calls new)
run-new-IsValid calls =
    run-IsValid calls new
      (record { sorted = tt; acyclic = λ a b edge. absurd (cc); held = λ a b edge. absurd (cc) })
