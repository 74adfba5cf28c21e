-- ===== src/Storage/Status.antt =====
-- crates/rnmdb-storage/src/lib.rs: the status of a hybrid backend, and what a switch has to move.
use rnov_modular_db.Base.{
  ℕ, ◌+◌, ◌-◌, ◌*◌, ◌^◌, Bool, true, false, ◌&&◌, Option, none, some, if◌then◌else◌, leb, ltb, ◌==◌,
}

pub data HybridSyncTarget : Type 0 where
  memory disk : HybridSyncTarget

-- the states that `sync_status` reports, and `switch_data_movement` asks for
pub data HybridState : Type 0 where
  memory_only disk_only hybrid_syncing hybrid_ready switching faulted : HybridState

pub data SwitchDataMovement : Type 0 where
  metadata_only pre_synchronized full_data_movement : SwitchDataMovement

pub record HybridLsnStatus : Type 0 where
  pub memory_lsn : ℕ
  pub disk_lsn : ℕ
  pub last_mirrored_lsn : ℕ

pub record HybridSyncStatus : Type 0 where
  pub state : HybridState
  pub active_target : HybridSyncTarget
  pub dirty_pages : ℕ
  pub dirty_bytes : ℕ
  pub mirrored_pages : ℕ
  pub estimated_flush_bytes : ℕ
  pub memory_lsn : ℕ
  pub disk_lsn : ℕ
  pub last_mirrored_lsn : ℕ

pub record SyncStatus : Type 0 where
  pub flushed_pages : ℕ
  pub durable_pages : ℕ

pub record HybridWarmupReport : Type 0 where
  pub requested_pages : ℕ
  pub warmed_pages : ℕ
  pub missing_pages : ℕ
  pub memory_resident_pages : ℕ

pub record HybridWarmupProgress : Type 0 where
  pub warmed_pages : ℕ
  pub missing_pages : ℕ
  pub max_warmed_lsn : ℕ

abbrev pub no_progress : HybridWarmupProgress
no_progress = record { warmed_pages = 0; missing_pages = 0; max_warmed_lsn = 0 }

abbrev pub same_target : HybridSyncTarget → HybridSyncTarget → Bool
same_target memory memory = true
same_target disk disk = true
same_target _ _ = false

abbrev is_ready : HybridState → Bool
is_ready hybrid_ready = true
is_ready _ = false

unfoldable pub switch_data_movement : HybridSyncStatus → HybridSyncTarget → SwitchDataMovement
switch_data_movement status target =
    if same_target status.active_target target
    then metadata_only
    else if is_ready status.state && status.dirty_pages == 0 && status.memory_lsn == status.disk_lsn
    then pre_synchronized
    else full_data_movement

abbrev pub max_lsn : ℕ → ℕ → ℕ
max_lsn a b = if leb a b then b else a

-- `HybridWarmupProgress::record`
abbrev pub record_page : Option ℕ → HybridWarmupProgress → HybridWarmupProgress
record_page none progress = record progress { missing_pages = progress.missing_pages + 1 }
record_page (some lsn) progress = record progress {
  warmed_pages = progress.warmed_pages + 1;
  max_warmed_lsn = max_lsn progress.max_warmed_lsn lsn;
}

-- `usize::saturating_mul`
abbrev pub saturating_mul : ℕ → ℕ → ℕ
saturating_mul a b = if ltb (a * b) (2 ^ 64) then a * b else 2 ^ 64 - 1
