-- ===== src/Txn/Locks/Tests.antt =====
-- The scenarios of the crate's own tests, and instances of the theorems.
use rnov_modular_db.Base.{◌≡◌, ◌≢◌, refl, ◌↔◌, true, some, List, [], ◌∷◌}
use rnov_modular_db.Common.{ok, err, invalid_input}
use rnov_modular_db.Collections.BTreeMap
use rnov_modular_db.Txn.Locks.{
  TransactionId, row, target_order, acquired, waiting, LockManager, new, add_wait_edge,
  remove_wait_edge, clear_wait, search, has_wait_path, wait_for, grant, acquire_exclusive,
  release_all,
}
use rnov_modular_db.Txn.Locks.Search.{WaitPath, has_wait_path_decides}
use rnov_modular_db.Txn.Locks.Acquire.{acquire_exclusive_deadlock}
use rnov_modular_db.Txn.Locks.Invariant.{IsValid, LockCall, acquire, run, run-new-IsValid}

-- Transactions 1 and 2 hold a row each, and 1 waits for the row of 2.
abbrev calls : List LockCall
calls = acquire 1 (row 1 10) ∷ acquire 2 (row 1 20) ∷ acquire 1 (row 1 20) ∷ []

abbrev held : LockManager
held = record { exclusive = (row 1 10, 1) ∷ (row 1 20, 2) ∷ []; waits_for = (1, 2 ∷ []) ∷ [] }

run-calls : run calls new ≡ held
unfolding run acquire_exclusive wait_for grant has_wait_path search add_wait_edge clear_wait
run-calls = refl

-- A request that would close the circle is refused, and leaves the manager as it was.
deadlock : acquire_exclusive 2 (row 1 10) held ≡ (err invalid_input, held)
unfolding acquire_exclusive wait_for has_wait_path search add_wait_edge remove_wait_edge
deadlock = refl

freed : release_all 2 held ≡ record { exclusive = (row 1 10, 1) ∷ []; waits_for = (1, []) ∷ [] }
unfolding release_all
freed = refl

held-IsValid : IsValid held
held-IsValid = rw run-calls at (run-new-IsValid calls)

has_wait_path_decides_example :
    (has_wait_path ((1, 2 ∷ []) ∷ (2, 3 ∷ []) ∷ []) 1 3 ≡ true)
    ↔ WaitPath ((1, 2 ∷ []) ∷ (2, 3 ∷ []) ∷ []) 3 1
has_wait_path_decides_example = has_wait_path_decides ((1, 2 ∷ []) ∷ (2, 3 ∷ []) ∷ []) 1 3

acquire_exclusive_deadlock_example :
    ((acquire_exclusive 2 (row 1 10) held).0 ≡ err invalid_input) ↔ (
      (holder : TransactionId) × (BTreeMap.get (row 1 10) held.exclusive ≡ some holder)
      × (holder ≢ 2)
      × WaitPath held.waits_for 2 holder)
acquire_exclusive_deadlock_example = acquire_exclusive_deadlock 2 (row 1 10) held

refused : (acquire_exclusive 2 (row 1 10) held).0 ≡ err invalid_input
refused = rw deadlock

granted : (acquire_exclusive 3 (row 1 30) held).0 ≡ ok acquired
unfolding acquire_exclusive
granted = refl

waits : (acquire_exclusive 3 (row 1 10) held).0 ≡ ok (waiting 1)
unfolding acquire_exclusive wait_for has_wait_path search add_wait_edge
waits = refl

run-new-IsValid_example : IsValid (run calls new)
run-new-IsValid_example = run-new-IsValid calls
