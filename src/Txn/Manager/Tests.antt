-- ===== src/Txn/Manager/Tests.antt =====
-- Instances of the theorems on the transaction manager.
use rnov_modular_db.Base.{◌≡◌, ◌≢◌, refl, ◌↔◌, ◌⊎◌, true, none, some, List, [], ◌∷◌, arith}
use rnov_modular_db.Common.{ok, err, invalid_input, not_found}
use rnov_modular_db.Txn.Locks.{TransactionId}
use rnov_modular_db.Txn.Snapshot.{
  read_committed, repeatable_read, active, committed, Snapshot, is_committed, is_active,
}
use rnov_modular_db.Txn.Manager.{
  TransactionEntry, TransactionManager, new, begin, state, finish, commit, ids_in, current_snapshot,
  snapshot, pin, pinned_snapshot_for, snapshot_at, snapshot_for,
}
use rnov_modular_db.Txn.Manager.Invariant.{
  IsValid, TxnCall, begin_txn, commit_txn, step, run, new-IsValid, run-entry,
}
use rnov_modular_db.Txn.Manager.States.{finish_outcome, ended_for_ever}
use rnov_modular_db.Txn.Manager.Snapshots.{snapshot_exact, repeatable_snapshot}

-- Transaction 1 is committed, 2 reads committed, and 3 reads repeatably.
abbrev calls : List TxnCall
calls =
    begin_txn read_committed
    ∷ begin_txn read_committed
    ∷ begin_txn repeatable_read
    ∷ commit_txn 1
    ∷ []

abbrev reader : TransactionEntry
reader = record { state = active; isolation_level = read_committed; pinned_snapshot = none }

abbrev repeater : TransactionEntry
repeater = record { state = active; isolation_level = repeatable_read; pinned_snapshot = none }

abbrev done : TransactionEntry
done = record { state = committed; isolation_level = read_committed; pinned_snapshot = none }

abbrev running : TransactionManager
running = record {
  next_transaction_id = 4;
  next_snapshot_id = 1;
  transactions = (1, done) ∷ (2, reader) ∷ (3, repeater) ∷ [];
}

run-calls : run calls new ≡ running
unfolding run step begin commit finish
run-calls = refl

running-IsValid : IsValid running
running-IsValid = rw run-calls at ((run-entry calls new (omega arith) new-IsValid).0)

finish_outcome_example :
    ((state 2 running ≡ some active)
      × ((finish 2 committed running).0 ≡ ok tt)
      × (state 2 (finish 2 committed running).1 ≡ some committed)
      × ((u : TransactionId) → u ≢ 2 → state u (finish 2 committed running).1 ≡ state u running))
    ⊎ (state 2 running ≡ none) × (finish 2 committed running ≡ (err not_found, running))
    ⊎ (state 2 running ≢ some active)
      × (state 2 running ≢ none)
      × (finish 2 committed running ≡ (err invalid_input, running))
finish_outcome_example = finish_outcome 2 committed running

ended_for_ever_example : state 1 (run (commit_txn 1 ∷ []) running) ≡ some committed
ended_for_ever_example =
    ended_for_ever (commit_txn 1 ∷ []) running 1 committed running-IsValid (omega arith) (λ e. cc)
      refl

snapshot_exact_example :
    ((is_committed (current_snapshot read_committed running) 1 ≡ true)
      ↔ (state 1 running ≡ some committed))
    × ((is_active (current_snapshot read_committed running) 1 ≡ true)
        ↔ (state 1 running ≡ some active))
snapshot_exact_example = snapshot_exact read_committed running 1 running-IsValid

-- The snapshot of transaction 3 outlives the commit of transaction 2.
abbrev pinned : Snapshot
unfolding ids_in
pinned = current_snapshot repeatable_read running

taken : (snapshot_for 3 running).0 ≡ ok pinned
unfolding snapshot_for snapshot_at pinned_snapshot_for snapshot ids_in
taken = refl

still : state 3 (run (commit_txn 2 ∷ []) (snapshot_for 3 running).1) ≡ some active
unfolding run step commit finish snapshot_for snapshot_at pinned_snapshot_for snapshot pin
still = refl

repeatable_snapshot_example :
    snapshot_for 3 (run (commit_txn 2 ∷ []) (snapshot_for 3 running).1)
    ≡ (ok pinned, run (commit_txn 2 ∷ []) (snapshot_for 3 running).1)
repeatable_snapshot_example =
    repeatable_snapshot (commit_txn 2 ∷ []) 3 repeater running pinned running-IsValid (omega arith)
      refl (λ e. cc) taken still
