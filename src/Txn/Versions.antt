-- ===== src/Txn/Versions.antt =====
-- crates/rnmdb-txn/src/lib.rs, `VersionChain` and `Version`.
-- A chain is its versions, the oldest first. A method that takes `&mut self` returns its result
-- and the chain that it leaves.
pub mod Visible
mod Tests
use rnov_modular_db.Base.{
  ℕ, ◌≡◌, Bool, true, false, not, ◌&&◌, Option, none, some, List, [], ◌∷◌, ◌++◌, reverse, ◌==◌,
  if◌then◌else◌,
}
use rnov_modular_db.Common.{Result, ok, err, invalid_input, not_found}
use rnov_modular_db.Txn.Locks.{TransactionId}
use rnov_modular_db.Txn.Snapshot.{Snapshot, is_committed}

pub record Version (A : Type 0) : Type 0 where
  pub created_by : TransactionId
  pub deleted_by : Option TransactionId
  pub value : A

abbrev pub VersionChain : Type 0 → Type 0
VersionChain A = List (Version A)

module _ {A : Type 0} where
  -- `VersionChain::push_insert`
  pub push_insert : TransactionId → A → VersionChain A → Result (Unit {0}) × VersionChain A
  push_insert created_by value versions =
      if created_by == 0 then (err invalid_input, versions) else (
        ok tt,
        versions ++ record { created_by = created_by; deleted_by = none; value = value } ∷ [],
      )

  -- `mark_deleted` on the version that `last_mut` returns.
  pub mark_version : TransactionId → Version A → Result (Version A)
  mark_version deleted_by version = elim version.deleted_by [
    | some _ ↦ err invalid_input
    | none ↦ ok (record version { deleted_by = some deleted_by })
  ]

  -- A change of the last element, where there is one.
  pub update_last : (Version A → Result (Version A)) → VersionChain A → Result (VersionChain A)
  update_last f [] = err not_found
  update_last f (v ∷ []) = elim (f v) [ ok v' ↦ ok (v' ∷ []) | err e ↦ err e ]
  update_last f (v ∷ w ∷ vs) = elim (update_last f (w ∷ vs)) [
    | ok vs' ↦ ok (v ∷ vs')
    | err e ↦ err e
  ]

  -- `VersionChain::mark_deleted`
  pub mark_deleted : TransactionId → VersionChain A → Result (Unit {0}) × VersionChain A
  mark_deleted deleted_by versions = elim (update_last (mark_version deleted_by) versions) [
    | ok versions' ↦ (ok tt, versions')
    | err e ↦ (err e, versions)
  ]

  -- `Version::is_visible`
  abbrev pub is_visible : Snapshot → Version A → Bool
  is_visible s v =
      is_committed s v.created_by
      && elim v.deleted_by [ none ↦ true | some deleted_by ↦ not (is_committed s deleted_by) ]

  -- `find` and then `map` to the value
  abbrev pub find_visible : Snapshot → List (Version A) → Option A
  find_visible s [] = none
  find_visible s (v ∷ vs) = if is_visible s v then some v.value else find_visible s vs

  -- `VersionChain::visible`
  pub visible : VersionChain A → Snapshot → Option A
  visible versions s = find_visible s (reverse versions)
