-- ===== src/Txn/Manager/Invariant.antt =====
-- The representation invariant of the transaction manager, and the calls of a client.
use rnov_modular_db.Base.{
  ◌+◌, ◌^◌, ◌≤◌, ◌<◌, ◌≡◌, ◌≢◌, refl, Option, none, some, List, [], ◌∷◌, arith, Bool-cases,
  Option-cases, sym, subst, ◌∙◌, length, ◌%◌, inl, inr,
}
use rnov_modular_db.Collections.Order.{same, same_iff, nat_order}
use rnov_modular_db.Collections.BTreeMap
use rnov_modular_db.Collections.BTreeMap.{insert-IsSorted, get-insert}
use rnov_modular_db.Txn.Locks.{TransactionId}
use rnov_modular_db.Txn.Snapshot.{
  IsolationLevel, read_committed, repeatable_read, serializable, TransactionState, active,
  committed, aborted, Snapshot,
}
use rnov_modular_db.Txn.Manager.{
  TransactionEntry, TransactionManager, new, state_eq, current_snapshot, begin, finish, commit,
  abort, snapshot, pin, pinned_snapshot_for, snapshot_at, snapshot_for,
}

-- The ids in use lie below the next one, and id 0 is never used.
pub record IsValid (m : TransactionManager) : Type 0 where
  pub sorted : BTreeMap.IsSorted m.transactions
  pub started : 1 ≤ m.next_transaction_id
  pub used :
      (t : TransactionId) (e : TransactionEntry)
      → BTreeMap.get t m.transactions ≡ some e
      → (1 ≤ t) × (t < m.next_transaction_id)

pub new-IsValid : IsValid new
new-IsValid = record { sorted = tt; started = omega arith; used = λ t e h. absurd (cc) }

-- The calls of a client.
pub data TxnCall : Type 0 where
  begin_txn : IsolationLevel → TxnCall
  commit_txn abort_txn : TransactionId → TxnCall
  take_snapshot : IsolationLevel → TxnCall
  take_snapshot_for : TransactionId → TxnCall

unfoldable pub step : TxnCall → TransactionManager → TransactionManager
step (begin_txn level) m = (begin level m).1
step (commit_txn t) m = (commit t m).1
step (abort_txn t) m = (abort t m).1
step (take_snapshot level) m = (snapshot level m).1
step (take_snapshot_for t) m = (snapshot_for t m).1

unfoldable pub run : List TxnCall → TransactionManager → TransactionManager
run [] m = m
run (call ∷ calls) m = run calls (step call m)

-- How an entry may change: its level never, its state only while active, its snapshot once.
pub record Evolves (e e' : TransactionEntry) : Type 0 where
  pub level : e'.isolation_level ≡ e.isolation_level
  pub final : e.state ≢ active → e'.state ≡ e.state
  pub pinned : (s : Snapshot) → e.pinned_snapshot ≡ some s → e'.pinned_snapshot ≡ some s

-- How a call may change the table.
pub data Effect (m m' : TransactionManager) : Type 0 where
  kept :
      m'.transactions ≡ m.transactions
      → m'.next_transaction_id ≡ m.next_transaction_id
      → Effect m m'
  edited :
      (t : TransactionId) (e e' : TransactionEntry)
      → BTreeMap.get t m.transactions ≡ some e
      → Evolves e e'
      → m'.transactions ≡ BTreeMap.insert t e' m.transactions
      → m'.next_transaction_id ≡ m.next_transaction_id
      → Effect m m'
  started :
      (e : TransactionEntry)
      → m'.transactions ≡ BTreeMap.insert m.next_transaction_id e m.transactions
      → m'.next_transaction_id ≡ (m.next_transaction_id + 1) % 2 ^ 64
      → Effect m m'

finish-Effect :
    (t : TransactionId) (s : TransactionState) (m : TransactionManager) → Effect m (finish t s m).1
unfolding finish
finish-Effect t s m = elim (Option-cases (BTreeMap.get t m.transactions)) [
  | inl absent ↦ kept (ground arith) (ground arith)
  | inr (e, known) ↦ elim (Bool-cases (state_eq e.state active)) [
    | inl is_active ↦
        edited t e (record e { state = s }) known
          (record { level = refl; final = λ ne. absurd (ground arith); pinned = λ p h. h })
          (ground arith) (ground arith)
    | inr ended ↦ kept (ground arith) (ground arith)
  ]
]

snapshot_at-Effect :
    (level : IsolationLevel) (t : TransactionId) (p : Option Snapshot) (m : TransactionManager)
    {e : TransactionEntry}
    → BTreeMap.get t m.transactions ≡ some e
    → e.pinned_snapshot ≡ p
    → Effect m (snapshot_at level t p m).1
unfolding snapshot_at pinned_snapshot_for snapshot pin
snapshot_at-Effect read_committed t p m known is = kept refl refl
snapshot_at-Effect repeatable_read t (some s) m known is = kept refl refl
snapshot_at-Effect serializable t (some s) m known is = kept refl refl
snapshot_at-Effect level t none m {e} known is =
    edited t e (record e { pinned_snapshot = some (current_snapshot level m) }) known
      (record { level = refl; final = λ ne. refl; pinned = λ p h. absurd (cc) }) (ground arith)
      (ground arith)

snapshot_for-Effect : (t : TransactionId) (m : TransactionManager) → Effect m (snapshot_for t m).1
unfolding snapshot_for
snapshot_for-Effect t m = elim (Option-cases (BTreeMap.get t m.transactions)) [
  | inl absent ↦ kept (ground arith) (ground arith)
  | inr (e, known) ↦ elim (Bool-cases (state_eq e.state active)) [
    | inl is_active ↦
        rw (known, snapshot_for)
          (rw is_active (snapshot_at-Effect e.isolation_level t e.pinned_snapshot m known refl))
    | inr ended ↦ kept (ground arith) (ground arith)
  ]
]

pub step-Effect : (call : TxnCall) (m : TransactionManager) → Effect m (step call m)
unfolding step begin commit abort snapshot
step-Effect (begin_txn level) m = started _ refl refl
step-Effect (commit_txn t) m = finish-Effect t committed m
step-Effect (abort_txn t) m = finish-Effect t aborted m
step-Effect (take_snapshot level) m = kept refl refl
step-Effect (take_snapshot_for t) m = snapshot_for-Effect t m

module _ {m m' : TransactionManager} where
  pub Effect-IsValid :
      m.next_transaction_id + 1 < 2 ^ 64
      → IsValid m
      → Effect m m'
      → IsValid m' × (m'.next_transaction_id ≤ m.next_transaction_id + 1)
  Effect-IsValid room v (kept is n) = (
    record {
      sorted = rw is v.sorted;
      started = omega arith;
      used = λ t e h. rw n (v.used t e (rw is at h));
    },
    omega arith,
  )
  Effect-IsValid room v (edited t e e' known evolves is n) = (
    record {
      sorted = rw is (insert-IsSorted t e' m.transactions v.sorted);
      started = omega arith;
      used = λ u f h. ground (
        arith,
        rw is at h,
        get-insert u t e' m.transactions,
        same_iff u t,
        v.used u f,
        v.used t e,
      );
    },
    omega arith,
  )
  Effect-IsValid room v (started e is n) = (
    record {
      sorted = rw is (insert-IsSorted m.next_transaction_id e m.transactions v.sorted);
      started = omega arith;
      used = λ u f h. ground (
        arith,
        rw is at h,
        get-insert u m.next_transaction_id e m.transactions,
        same_iff u m.next_transaction_id,
        v.used u f,
      );
    },
    omega arith,
  )

Evolves-refl : (e : TransactionEntry) → Evolves e e
Evolves-refl e = record { level = refl; final = λ _. refl; pinned = λ s h. h }

pub Evolves-trans : {e f g : TransactionEntry} → Evolves e f → Evolves f g → Evolves e g
Evolves-trans p q = record {
  level = q.level ∙ p.level;
  final = λ ne. q.final (λ h. ne (sym (p.final ne) ∙ h)) ∙ p.final ne;
  pinned = λ s h. q.pinned s (p.pinned s h);
}

module _ {m m' : TransactionManager} where
  -- An entry stays, and changes as an entry may.
  pub Effect-entry :
      (t : TransactionId) {e : TransactionEntry}
      → IsValid m
      → Effect m m'
      → BTreeMap.get t m.transactions ≡ some e
      → (e' : TransactionEntry) × (BTreeMap.get t m'.transactions ≡ some e') × Evolves e e'
  Effect-entry t {e} v (kept is n) h = (e, rw is h, Evolves-refl e)
  Effect-entry t {e} v (edited u f f' known evolves is n) h = elim (Bool-cases (same t u)) [
    | inl same_id ↦ (
      f',
      ground (arith, is, get-insert t u f' m.transactions),
      subst (λ x. Evolves x f') (ground (arith, same_iff t u)) evolves,
    )
    | inr other ↦ (e, ground (arith, is, get-insert t u f' m.transactions), Evolves-refl e)
  ]
  Effect-entry t {e} v (started f is n) h = (
    e,
    ground (
      arith,
      is,
      get-insert t m.next_transaction_id f m.transactions,
      same_iff t m.next_transaction_id,
      v.used t e h,
    ),
    Evolves-refl e,
  )

-- The id counter has room for this many calls.
abbrev pub HasRoom : List TxnCall → TransactionManager → Type 0
HasRoom calls m = m.next_transaction_id + length calls < 2 ^ 64

-- Over any calls the manager stays valid, and an entry changes as an entry may.
pub run-entry :
    (calls : List TxnCall) (m : TransactionManager)
    → HasRoom calls m
    → IsValid m
    → IsValid (run calls m)
      × ((t : TransactionId) (e : TransactionEntry)
          → BTreeMap.get t m.transactions ≡ some e
          → (e' : TransactionEntry) × (BTreeMap.get t (run calls m).transactions ≡ some e')
            × Evolves e e')
unfolding run
run-entry [] m room v = (v, λ t e h. (e, h, Evolves-refl e))
run-entry (call ∷ calls) m room v =
    let effect = step-Effect call m in
    let (valid, bound) = Effect-IsValid (omega arith) v effect in
    let (final_valid, later) = run-entry calls (step call m) (omega arith) valid in
    (
      final_valid,
      λ t e h.
          let (f, hf, ef) = Effect-entry t v effect h in
          let (g, hg, fg) = later t f hf in (g, hg, Evolves-trans ef fg),
    )
