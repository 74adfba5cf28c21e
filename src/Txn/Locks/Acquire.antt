-- ===== src/Txn/Locks/Acquire.antt =====
-- `acquire_exclusive` on each of its branches.
use rnov_modular_db.Base.{
  ◌≡◌, ◌≢◌, refl, ◌↔◌, ◌⊎◌, inl, inr, true, false, none, some, arith, ◌==◌, ==_iff, Bool-cases,
  Option-cases, subst, sym,
}
use rnov_modular_db.Common.{ok, err, invalid_input}
use rnov_modular_db.Collections.BTreeMap
use rnov_modular_db.Collections.BTreeMap.{get-insert_self, get-insert_ne}
use rnov_modular_db.Txn.Locks.{
  TransactionId, LockTarget, target_order, acquired, waiting, LockManager, has_wait_path,
  add_wait_edge, grant, wait_for, acquire_exclusive,
}
use rnov_modular_db.Txn.Locks.Search.{Edge, WaitPath, has_wait_path_decides}
use rnov_modular_db.Txn.Locks.Paths.{
  Edge-add_wait_edge, Edge-clear_wait, Edge-remove_wait_edge, WaitPath-add_target, WaitPath-mono,
  IsAcyclic, IsAcyclic-mono, IsAcyclic-add,
}

module _ (t : TransactionId) (target : LockTarget) (m : LockManager) where
  acquire_free :
      BTreeMap.get target m.exclusive ≡ none
      → acquire_exclusive t target m ≡ (ok acquired, grant t target m)
  unfolding acquire_exclusive
  acquire_free e = ground arith

  acquire_own :
      BTreeMap.get target m.exclusive ≡ some t → acquire_exclusive t target m ≡ (ok acquired, m)
  unfolding acquire_exclusive
  acquire_own e = ground arith

  acquire_other :
      (holder : TransactionId)
      → BTreeMap.get target m.exclusive ≡ some holder
      → holder ≢ t
      → acquire_exclusive t target m ≡ wait_for t holder m
  unfolding acquire_exclusive
  acquire_other holder e ne = ground arith

  -- The branch that a request takes, with its outcome.
  pub data Branch : Type 0 where
    free :
        BTreeMap.get target m.exclusive ≡ none
        → acquire_exclusive t target m ≡ (ok acquired, grant t target m)
        → Branch
    own :
        BTreeMap.get target m.exclusive ≡ some t
        → acquire_exclusive t target m ≡ (ok acquired, m)
        → Branch
    other :
        (holder : TransactionId)
        → BTreeMap.get target m.exclusive ≡ some holder
        → holder ≢ t
        → acquire_exclusive t target m ≡ wait_for t holder m
        → Branch

  pub branch : Branch
  branch = elim (Option-cases (BTreeMap.get target m.exclusive)) [
    | inl e ↦ free e (acquire_free e)
    | inr (holder, e) ↦ elim (Bool-cases (holder == t)) [
      | inl is_t ↦
          let own_lock =
            subst (λ h. BTreeMap.get target m.exclusive ≡ some h) ((==_iff holder t).0 is_t) e in
          own own_lock (acquire_own own_lock)
      | inr not_t ↦
          let ne : holder ≢ t = ground arith in other holder e ne (acquire_other holder e ne)
    ]
  ]

  -- A request that was refused left a graph without the edge that it had added.
  wait_for-IsAcyclic :
      (holder : TransactionId) → IsAcyclic m.waits_for → IsAcyclic (wait_for t holder m).1.waits_for
  unfolding wait_for
  wait_for-IsAcyclic holder acyclic =
      let w = m.waits_for in
      let added = add_wait_edge t holder w in
      elim (Bool-cases (has_wait_path added holder t)) [
        | inl found ↦ rw found (
            IsAcyclic-mono
              (λ a b e.
                let (kept, edge) = (Edge-remove_wait_edge t holder a b added).0 e in
                elim ((Edge-add_wait_edge t holder a b w).0 edge) [
                  | inl new ↦ absurd (kept new)
                  | inr old ↦ old
                ])
              acyclic)
        | inr missed ↦ rw missed (
            IsAcyclic-add t holder w (λ p. cc ((has_wait_path_decides added holder t).1 p)) acyclic)
      ]

  -- Whatever the request and its outcome, the waits-for graph stays without cycles: no set of
  -- transactions ever waits for one another in a circle.
  pub acquire_exclusive-IsAcyclic :
      IsAcyclic m.waits_for → IsAcyclic (acquire_exclusive t target m).1.waits_for
  unfolding grant
  acquire_exclusive-IsAcyclic acyclic = elim branch [
    | free e is ↦
        rw is (IsAcyclic-mono (λ a b edge. ((Edge-clear_wait t a b m.waits_for).0 edge).1) acyclic)
    | own e is ↦ rw is acyclic
    | other holder e ne is ↦ rw is (wait_for-IsAcyclic holder acyclic)
  ]

  wait_for-eq-err :
      (holder : TransactionId)
      → ((wait_for t holder m).0 ≡ err invalid_input) ↔ WaitPath m.waits_for t holder
  unfolding wait_for
  wait_for-eq-err holder =
      let added = add_wait_edge t holder m.waits_for in
      let decides = has_wait_path_decides added holder t in
      (
        λ e. WaitPath-add_target t holder (decides.0 (ground arith)),
        λ p. rw (
            decides.1
              (WaitPath-mono (λ a b e. (Edge-add_wait_edge t holder a b m.waits_for).1 (inr e)) p)),
      )

  -- `acquire_exclusive` reports a deadlock exactly when another transaction holds the lock and
  -- already waits, directly or through others, for the one that asks.
  pub acquire_exclusive_deadlock : ((acquire_exclusive t target m).0 ≡ err invalid_input) ↔ (
      (holder : TransactionId) × (BTreeMap.get target m.exclusive ≡ some holder)
      × (holder ≢ t)
      × WaitPath m.waits_for t holder)
  acquire_exclusive_deadlock = elim branch [
    | free e is ↦ rw is (λ h. absurd (cc), λ (h, held, _, _). absurd (cc))
    | own e is ↦ rw is (λ h. absurd (cc), λ (h, held, ne, _). absurd (ground arith))
    | other holder e ne is ↦ rw is (
      λ h. (holder, e, ne, (wait_for-eq-err holder).0 h),
      λ (h, held, _, p).
          let same_holder : h ≡ holder = ground arith in
          (wait_for-eq-err holder).1 (subst (WaitPath m.waits_for t) same_holder p),
    )
  ]

  -- A refused request changes nothing: the locks are the same, and so is every wait.
  pub acquire_exclusive_refused :
      IsAcyclic m.waits_for
      → (acquire_exclusive t target m).0 ≡ err invalid_input
      → ((acquire_exclusive t target m).1.exclusive ≡ m.exclusive)
        × ((a b : TransactionId)
            → Edge (acquire_exclusive t target m).1.waits_for a b ↔ Edge m.waits_for a b)
  unfolding wait_for
  acquire_exclusive_refused acyclic refused = elim branch [
    | free e is ↦ absurd (cc)
    | own e is ↦ absurd (cc)
    | other holder e ne is ↦
        let added = add_wait_edge t holder m.waits_for in
        let found : has_wait_path added holder t ≡ true = ground (arith, is) in
        let back =
          WaitPath-add_target {w = m.waits_for} t holder
            ((has_wait_path_decides added holder t).0 found) in
        rw (is, found)
          (
            refl,
            λ a b. (
              λ edge.
                  let (kept, in_added) = (Edge-remove_wait_edge t holder a b added).0 edge in
                  elim ((Edge-add_wait_edge t holder a b m.waits_for).0 in_added) [
                    | inl new ↦ absurd (kept new)
                    | inr old ↦ old
                  ],
              λ edge. (Edge-remove_wait_edge t holder a b added).1 (
                λ (at_t, at_h). acyclic a b edge (
                    subst (λ x. WaitPath m.waits_for x b) (sym at_t)
                      (subst (WaitPath m.waits_for t) (sym at_h) back)),
                (Edge-add_wait_edge t holder a b m.waits_for).1 (inr edge),
              ),
            ),
          )
  ]

  -- After a grant the transaction holds the lock, every other lock is held as before, and no wait
  -- is new.
  pub acquire_exclusive_granted :
      (acquire_exclusive t target m).0 ≡ ok acquired
      → (BTreeMap.get target (acquire_exclusive t target m).1.exclusive ≡ some t)
        × ((x : LockTarget)
            → x ≢ target
            → BTreeMap.get x (acquire_exclusive t target m).1.exclusive
              ≡ BTreeMap.get x m.exclusive)
        × ((a b : TransactionId)
            → Edge (acquire_exclusive t target m).1.waits_for a b
            → Edge m.waits_for a b)
  unfolding wait_for grant
  acquire_exclusive_granted granted = elim branch [
    | free e is ↦ rw is (
      get-insert_self target t m.exclusive,
      λ x ne. get-insert_ne x target t m.exclusive ne,
      λ a b edge. ((Edge-clear_wait t a b m.waits_for).0 edge).1,
    )
    | own e is ↦ rw is (e, λ x ne. refl, λ a b edge. edge)
    | other holder e ne is ↦ absurd (ground (arith, is))
  ]

  -- A transaction that is told to wait is told the holder of the lock, waits for that holder and
  -- gains no other wait, and no lock changes hands.
  pub acquire_exclusive_waits :
      (holder : TransactionId)
      → (acquire_exclusive t target m).0 ≡ ok (waiting holder)
      → (BTreeMap.get target m.exclusive ≡ some holder)
        × ((acquire_exclusive t target m).1.exclusive ≡ m.exclusive)
        × ((a b : TransactionId)
            → Edge (acquire_exclusive t target m).1.waits_for a b
              ↔ ((a ≡ t) × (b ≡ holder) ⊎ Edge m.waits_for a b))
  unfolding wait_for
  acquire_exclusive_waits holder waits = elim branch [
    | free e is ↦ absurd (cc)
    | own e is ↦ absurd (cc)
    | other h e ne is ↦
        let added = add_wait_edge t h m.waits_for in
        let missed : has_wait_path added h t ≡ false = ground (arith, is) in
        let same_holder : h ≡ holder = ground (arith, is) in
        rw (is, missed)
          (
            rw same_holder at e,
            refl,
            λ a b.
                subst (λ x. Edge added a b ↔ ((a ≡ t) × (b ≡ x) ⊎ Edge m.waits_for a b)) same_holder
                  (Edge-add_wait_edge t h a b m.waits_for),
          )
  ]
