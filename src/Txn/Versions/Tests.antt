-- ===== src/Txn/Versions/Tests.antt =====
-- Instances of the theorems on version chains.
use rnov_modular_db.Base.{ℕ, ◌≡◌, refl, ◌↔◌, none, some, [], ◌∷◌}
use rnov_modular_db.Txn.Snapshot.{Snapshot, read_committed}
use rnov_modular_db.Txn.Versions.{
  Version, VersionChain, update_last, mark_version, mark_deleted, visible,
}
use rnov_modular_db.Txn.Versions.Visible.{Newest, visible-Newest}

-- Transaction 1 is committed and 2 is active.
abbrev seen : Snapshot
seen = record {
  snapshot_id = 1;
  isolation_level = read_committed;
  committed_set = 1 ∷ [];
  active_set = 2 ∷ [];
}

abbrev first : Version ℕ
first = record { created_by = 1; deleted_by = none; value = 10 }

abbrev chain : VersionChain ℕ
chain = first ∷ record { created_by = 2; deleted_by = none; value = 20 } ∷ []

-- The uncommitted version is skipped.
visible-chain : visible chain seen ≡ some 10
unfolding visible
visible-chain = refl

-- A committed delete hides the only version, an uncommitted one does not.
deleted :
    (visible (mark_deleted 1 (first ∷ [])).1 seen ≡ none)
    × (visible (mark_deleted 2 (first ∷ [])).1 seen ≡ some 10)
unfolding visible mark_deleted update_last mark_version
deleted = (refl, refl)

visible-Newest_example : (visible chain seen ≡ some 10) ↔ Newest seen 10 chain
visible-Newest_example = visible-Newest seen 10 chain
