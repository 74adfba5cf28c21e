-- ===== src/Instance/Switch.antt =====
-- crates/rnmdb-instance/src/lib.rs: the status of an instance between memory and disk, the policy
-- for switching, and `InstanceSyncChannel`.
pub mod Laws
use rnov_modular_db.Base.{ℕ, Bool, true, false, not, ◌&&◌, ◌||◌, ltb, ◌==◌, if◌then◌else◌}
use rnov_modular_db.Common.{Result, ok, err, invalid_input, reject_if, ◌>>=◌, ◌>>◌}

pub data InstanceSyncState : Type 0 where
  memory_only disk_only hybrid_syncing hybrid_ready switching faulted : InstanceSyncState

pub data InstanceSyncTarget : Type 0 where
  memory disk : InstanceSyncTarget

pub data SwitchDataMovement : Type 0 where
  metadata_only pre_synchronized full_data_movement : SwitchDataMovement

-- The derived `==` of targets.
abbrev pub target_eq : InstanceSyncTarget → InstanceSyncTarget → Bool
target_eq memory memory = true
target_eq memory disk = false
target_eq disk memory = false
target_eq disk disk = true

abbrev pub is_hybrid_ready : InstanceSyncState → Bool
is_hybrid_ready hybrid_ready = true
is_hybrid_ready _ = false

pub record InstanceSyncStatus : Type 0 where
  pub state : InstanceSyncState
  pub active_target : InstanceSyncTarget
  pub memory_lsn : ℕ
  pub disk_lsn : ℕ
  pub dirty_bytes : ℕ
  pub estimated_flush_bytes : ℕ

-- `validate_estimated_flush_bytes`
abbrev pub validate_estimated_flush_bytes : ℕ → ℕ → Result (Unit {0})
validate_estimated_flush_bytes dirty estimated = reject_if (ltb estimated dirty) invalid_input

-- `validate_hybrid_ready_status`
abbrev pub validate_hybrid_ready_status : InstanceSyncState → ℕ → ℕ → ℕ → Result (Unit {0})
validate_hybrid_ready_status state memory_lsn disk_lsn dirty =
    if not (is_hybrid_ready state)
    then ok tt
    else if dirty == 0 && memory_lsn == disk_lsn
    then ok tt
    else err invalid_input

-- `validate_sync_state_target`
abbrev pub validate_sync_state_target : InstanceSyncState → InstanceSyncTarget → Result (Unit {0})
validate_sync_state_target memory_only target =
    reject_if (not (target_eq target memory)) invalid_input
validate_sync_state_target disk_only target = reject_if (not (target_eq target disk)) invalid_input
validate_sync_state_target _ target = ok tt

-- `InstanceSyncStatus::new`; the argument is the record that it would return.
pub status_new : InstanceSyncStatus → Result InstanceSyncStatus
status_new s =
    validate_estimated_flush_bytes s.dirty_bytes s.estimated_flush_bytes
    >> validate_hybrid_ready_status s.state s.memory_lsn s.disk_lsn s.dirty_bytes
    >> validate_sync_state_target s.state s.active_target
    >> ok s

-- `InstanceSyncStatus::is_pre_synchronized`
abbrev pub is_pre_synchronized : InstanceSyncStatus → Bool
is_pre_synchronized s = is_hybrid_ready s.state && s.dirty_bytes == 0 && s.memory_lsn == s.disk_lsn

-- `InstanceSyncStatus::switch_data_movement`
pub switch_data_movement : InstanceSyncTarget → InstanceSyncStatus → SwitchDataMovement
switch_data_movement target s =
    if target_eq target s.active_target
    then metadata_only
    else if is_pre_synchronized s
    then pre_synchronized
    else full_data_movement

abbrev pub is_full : SwitchDataMovement → Bool
is_full full_data_movement = true
is_full metadata_only = false
is_full pre_synchronized = false

-- `InstanceSyncStatus::can_switch_in_millis`
pub can_switch_in_millis : InstanceSyncTarget → InstanceSyncStatus → Bool
can_switch_in_millis target s = not (is_full (switch_data_movement target s))

-- `InstanceSyncStatus::require_millisecond_switch`
pub require_millisecond_switch : InstanceSyncTarget → InstanceSyncStatus → Result SwitchDataMovement
require_millisecond_switch target s =
    let movement = switch_data_movement target s in
    reject_if (is_full movement) invalid_input >> ok movement

pub record InstanceSwitchPolicy : Type 0 where
  pub millisecond_switch_required : Bool
  pub full_data_movement_allowed : Bool

-- `InstanceSwitchPolicy::millisecond_only`, which is also the default
abbrev pub millisecond_only : InstanceSwitchPolicy
millisecond_only = record { millisecond_switch_required = true; full_data_movement_allowed = false }

-- `InstanceSwitchPolicy::allow_full_data_movement`
abbrev pub allow_full_data_movement : InstanceSwitchPolicy
allow_full_data_movement = record {
  millisecond_switch_required = false;
  full_data_movement_allowed = true;
}

-- `InstanceSwitchPolicy::validate_switch`
pub validate_switch :
    InstanceSyncStatus → InstanceSyncTarget → InstanceSwitchPolicy → Result SwitchDataMovement
validate_switch status target policy =
    let movement = switch_data_movement target status in
    reject_if
      (is_full movement
        && (policy.millisecond_switch_required || not policy.full_data_movement_allowed))
      invalid_input
    >> ok movement

pub record InstanceSwitchDecision : Type 0 where
  pub target : InstanceSyncTarget
  pub movement : SwitchDataMovement
  pub dirty_bytes : ℕ
  pub estimated_flush_bytes : ℕ

-- `InstanceSwitchDecision::can_execute_immediately`
abbrev pub can_execute_immediately : InstanceSwitchDecision → Bool
can_execute_immediately d = not (is_full d.movement)

pub record InstanceSyncChannel : Type 0 where
  pub source_instance : ℕ
  pub target_instance : ℕ
  pub switch_policy : InstanceSwitchPolicy

-- `InstanceSyncChannel::new`
pub channel_new : ℕ → ℕ → InstanceSwitchPolicy → Result InstanceSyncChannel
channel_new source target policy =
    reject_if (source == target) invalid_input
    >> ok (record { source_instance = source; target_instance = target; switch_policy = policy })

-- `InstanceSyncChannel::plan_switch`
pub plan_switch :
    InstanceSyncStatus → InstanceSyncTarget → InstanceSyncChannel → Result InstanceSwitchDecision
plan_switch status target' channel = validate_switch status target' channel.switch_policy >>= λ m.
    ok (record {
      target = target';
      movement = m;
      dirty_bytes = status.dirty_bytes;
      estimated_flush_bytes = status.estimated_flush_bytes;
    })
