-- ===== src/Txn/Manager/States.antt =====
-- The life of a transaction: begun once, ended once, and then the same for ever.
use rnov_modular_db.Base.{
  ◌≡◌, ◌≢◌, refl, ◌⊎◌, inl, inr, none, some, List, arith, Bool-cases, Option-cases,
}
use rnov_modular_db.Common.{ok, err, invalid_input, not_found}
use rnov_modular_db.Collections.Order.{nat_order}
use rnov_modular_db.Collections.BTreeMap
use rnov_modular_db.Collections.BTreeMap.{get-insert}
use rnov_modular_db.Txn.Locks.{TransactionId}
use rnov_modular_db.Txn.Snapshot.{IsolationLevel, TransactionState, active}
use rnov_modular_db.Txn.Manager.{
  TransactionEntry, TransactionManager, state, state_eq, begin, finish,
}
use rnov_modular_db.Txn.Manager.Invariant.{IsValid, TxnCall, run, HasRoom, run-entry}

-- `begin` returns an id that no transaction has, that transaction is then active, and every other
-- is as before.
pub begin_fresh :
    (level : IsolationLevel) (m : TransactionManager)
    → IsValid m
    → let id = m.next_transaction_id in
      ((begin level m).0 ≡ ok (record { id = id; isolation_level = level }))
      × (state id m ≡ none)
      × (state id (begin level m).1 ≡ some active)
      × ((t : TransactionId) → t ≢ id → state t (begin level m).1 ≡ state t m)
unfolding begin
begin_fresh level m v =
    let id = m.next_transaction_id in
    let e : TransactionEntry = record {
      state = active;
      isolation_level = level;
      pinned_snapshot = none;
    } in
    (
      refl,
      elim (Option-cases (BTreeMap.get id m.transactions)) [
        | inl absent ↦ ground arith
        | inr (f, known) ↦ absurd (omega (arith, v.used id f known))
      ],
      ground (arith, get-insert id id e m.transactions),
      λ t ne. ground (arith, get-insert t id e m.transactions),
    )

-- `finish`, which is `commit` or `abort` by its state, succeeds on an active transaction, which is
-- then in the new state while every other is as before;
-- an unknown transaction is not found, an ended one is invalid, and nothing changes in either case.
pub finish_outcome :
    (t : TransactionId) (s : TransactionState) (m : TransactionManager)
    → ((state t m ≡ some active)
        × ((finish t s m).0 ≡ ok tt)
        × (state t (finish t s m).1 ≡ some s)
        × ((u : TransactionId) → u ≢ t → state u (finish t s m).1 ≡ state u m))
      ⊎ (state t m ≡ none) × (finish t s m ≡ (err not_found, m))
      ⊎ (state t m ≢ some active) × (state t m ≢ none) × (finish t s m ≡ (err invalid_input, m))
unfolding finish
finish_outcome t s m = elim (Option-cases (BTreeMap.get t m.transactions)) [
  | inl absent ↦ inr (inl (ground arith, ground arith))
  | inr (e, known) ↦
      let e' : TransactionEntry = record e { state = s } in
      elim (Bool-cases (state_eq e.state active)) [
        | inl is_active ↦ inl (
          ground arith,
          ground arith,
          ground (arith, get-insert t t e' m.transactions),
          λ u ne. ground (arith, get-insert u t e' m.transactions),
        )
        | inr ended ↦ inr (inr (ground arith, ground arith, ground arith))
      ]
]

-- Take a valid manager and calls that are fewer than the transaction ids left below 2 ^ 64, after
-- which the counter wraps. Once a transaction is committed or aborted, such calls do not change that.
pub ended_for_ever :
    (calls : List TxnCall) (m : TransactionManager) (t : TransactionId) (s : TransactionState)
    → IsValid m
    → HasRoom calls m
    → s ≢ active
    → state t m ≡ some s
    → state t (run calls m) ≡ some s
ended_for_ever calls m t s v room ended h = elim (Option-cases (BTreeMap.get t m.transactions)) [
  | inl absent ↦ absurd (ground arith)
  | inr (e, known) ↦
      let (e', later, evolves) = (run-entry calls m room v).1 t e known in
      ground (arith, evolves.final)
]
