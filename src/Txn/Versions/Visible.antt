-- ===== src/Txn/Versions/Visible.antt =====
-- What a snapshot sees of a chain, and how the chain's methods change that.
use mathlib.Core.List.{reverse-append}
use rnov_modular_db.Base.{
  ◌≡◌, ◌≢◌, refl, ◌↔◌, ◌⊎◌, true, none, some, List, [], ◌∷◌, ◌++◌, reverse, arith, if◌then◌else◌,
  All, In, inl, inr, Option-cases,
}
use rnov_modular_db.Common.{Result, ok, err, invalid_input}
use rnov_modular_db.Collections.Order.{nat_order, same_iff}
use rnov_modular_db.Collections.BTreeSet
use rnov_modular_db.Collections.BTreeSet.{BTreeSet}
use rnov_modular_db.Txn.Locks.{TransactionId}
use rnov_modular_db.Txn.Snapshot.{Snapshot, is_committed}
use rnov_modular_db.Txn.Versions.{
  Version, VersionChain, push_insert, mark_version, update_last, mark_deleted, is_visible,
  find_visible, visible,
}

contains_iff :
    (t : TransactionId) (s : BTreeSet TransactionId) → (BTreeSet.contains t s ≡ true) ↔ In t s
contains_iff t [] = (λ h. ground (arith, h), λ e. elim e [ ])
contains_iff t (u ∷ s) = ground (arith, same_iff t u, contains_iff t s)

module _ {A : Type 0} where
  find_visible-append :
      (s : Snapshot) (xs ys : List (Version A))
      → find_visible s (xs ++ ys)
        ≡ elim (find_visible s xs) [ none ↦ find_visible s ys | some x ↦ some x ]
  find_visible-append s [] ys = refl
  find_visible-append s (v ∷ xs) ys = ground (arith, find_visible-append s xs ys)

  -- The newest version decides where it is visible, and the older ones decide otherwise.
  pub visible-concat :
      (s : Snapshot) (older : VersionChain A) (v : Version A)
      → visible (older ++ v ∷ []) s ≡ (if is_visible s v then some v.value else visible older s)
  unfolding visible
  visible-concat s older v = rw (reverse-append older (v ∷ []))

  -- After an insert by a transaction other than 0 a snapshot sees the new value exactly if it
  -- holds the creator committed, and what it saw before otherwise. Transaction 0 is refused.
  pub visible-push_insert :
      (t : TransactionId) (x : A) (versions : VersionChain A) (s : Snapshot)
      → t ≢ 0
      → ((push_insert t x versions).0 ≡ ok tt)
        × (visible (push_insert t x versions).1 s
            ≡ (if is_committed s t then some x else visible versions s))
  unfolding push_insert
  visible-push_insert t x versions s ne =
      ground
        (arith, visible-concat s versions (record { created_by = t; deleted_by = none; value = x }))

  update_last-concat :
      (f : Version A → Result (Version A)) (older : VersionChain A) (v : Version A)
      → update_last f (older ++ v ∷ [])
        ≡ elim (f v) [ ok v' ↦ ok (older ++ v' ∷ []) | err e ↦ err e ]
  unfolding update_last
  update_last-concat f [] v = refl
  update_last-concat f (w ∷ []) v = ground arith
  update_last-concat f (w ∷ x ∷ older) v = ground (arith, update_last-concat f (x ∷ older) v)

  -- Marking the newest version deleted succeeds once. A snapshot that holds the deleter committed
  -- then sees what it saw of the older versions; any other sees what it saw before.
  pub visible-mark_deleted :
      (t : TransactionId) (older : VersionChain A) (v : Version A) (s : Snapshot)
      → v.deleted_by ≡ none
      → ((mark_deleted t (older ++ v ∷ [])).0 ≡ ok tt)
        × (visible (mark_deleted t (older ++ v ∷ [])).1 s
            ≡ (if is_committed s t then visible older s else visible (older ++ v ∷ []) s))
        × ((mark_deleted t (mark_deleted t (older ++ v ∷ [])).1).0 ≡ err invalid_input)
  unfolding mark_deleted mark_version
  visible-mark_deleted t older v s fresh =
      let v' : Version A = record v { deleted_by = some t } in
      ground (
        arith,
        update_last-concat (mark_version t) older v,
        update_last-concat (mark_version t) older v',
        visible-concat s older v,
        visible-concat s older v',
      )

  visible-cons :
      (s : Snapshot) (v : Version A) (newer : VersionChain A)
      → visible (v ∷ newer) s ≡ elim (visible newer s) [
        | none ↦ if is_visible s v then some v.value else none
        | some x ↦ some x
      ]
  unfolding visible
  visible-cons s v newer =
      rw (reverse-append (v ∷ []) newer) (find_visible-append s (reverse newer) (v ∷ []))

  -- The creator of the version is among the committed transactions of the snapshot, and a deleter,
  -- if there is one, is not.
  abbrev pub Sees : Snapshot → Version A → Type 0
  Sees s v =
      In v.created_by s.committed_set
      × ((t : TransactionId) → v.deleted_by ≡ some t → ¬ In t s.committed_set)

  -- `x` is the value of a version that the snapshot sees, and it sees no version after it.
  abbrev pub Newest : Snapshot → A → VersionChain A → Type 0
  Newest s x [] = ⊥
  Newest s x (v ∷ newer) = Newest s x newer ⊎ Sees s v × (v.value ≡ x) × All (λ w. ¬ Sees s w) newer

  is_visible_iff : (s : Snapshot) (v : Version A) → (is_visible s v ≡ true) ↔ Sees s v
  is_visible_iff s v = elim (Option-cases v.deleted_by) [
    | inl kept ↦ (
      λ h. (
        (contains_iff v.created_by s.committed_set).0 (ground (arith, h, kept)),
        λ t e. ground (arith, e, kept),
      ),
      λ h. ground (arith, kept, h.0, contains_iff v.created_by s.committed_set),
    )
    | inr (d, deleted) ↦ (
      λ h. (
        (contains_iff v.created_by s.committed_set).0 (ground (arith, h, deleted)),
        λ t e among. ground (arith, h, deleted, e, (contains_iff t s.committed_set).1 among),
      ),
      λ h. ground (
        arith,
        deleted,
        h.0,
        contains_iff v.created_by s.committed_set,
        h.1 d deleted,
        contains_iff d s.committed_set,
      ),
    )
  ]

  visible-eq-none :
      (s : Snapshot) (versions : VersionChain A)
      → (visible versions s ≡ none) ↔ All (λ w. ¬ Sees s w) versions
  visible-eq-none s [] = unfold visible in (λ _. tt, λ _. refl)
  visible-eq-none s (v ∷ newer) =
      ground (arith, visible-cons s v newer, is_visible_iff s v, visible-eq-none s newer)

  not-both :
      (s : Snapshot) (x : A) (versions : VersionChain A)
      → Newest s x versions
      → All (λ w. ¬ Sees s w) versions
      → ⊥
  not-both s x [] n h = n
  not-both s x (v ∷ newer) n h = elim n [
    | inl later ↦ not-both s x newer later h.1
    | inr here ↦ h.0 here.0
  ]

  -- What a snapshot sees of a chain is decided by the newest version that counts: it sees `x` exactly
  -- if some version holds `x`, its creator is committed in the snapshot, its deleter, if it has one,
  -- is not, and no newer version is such.
  pub visible-Newest :
      (s : Snapshot) (x : A) (versions : VersionChain A)
      → (visible versions s ≡ some x) ↔ Newest s x versions
  visible-Newest s x [] = unfold visible in (λ h. absurd (cc), λ n. absurd n)
  visible-Newest s x (v ∷ newer) = ground (
    arith,
    visible-cons s v newer,
    is_visible_iff s v,
    visible-Newest s x newer,
    visible-eq-none s newer,
    not-both s x newer,
  )
