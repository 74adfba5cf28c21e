-- ===== src/Instance/Manager.antt =====
-- crates/rnmdb-instance/src/lib.rs: `InstanceManager`.
pub mod Outcome
pub mod Invariant
use rnov_modular_db.Base.{
  ℕ, Bool, true, false, not, ◌&&◌, ◌||◌, Option, none, some, List, [], ◌∷◌, ◌==◌, if◌then◌else◌,
}
use rnov_modular_db.Common.{Result, ok, err, invalid_input, not_found, ◌>>=◌}
use rnov_modular_db.Collections.Order.{nat_order, pair_order}
use rnov_modular_db.Collections.BTreeMap
use rnov_modular_db.Collections.BTreeMap.{BTreeMap}
use rnov_modular_db.Instance.Limits.{ResourceLimits}
use rnov_modular_db.Instance.Isolation.{
  InstanceConfig, isolated, conflicts_with, InstanceRuntimeContext,
}
use rnov_modular_db.Instance.Switch.{InstanceSyncChannel, InstanceSwitchPolicy, channel_new}

abbrev pub Instances : Type 0
Instances = BTreeMap ℕ InstanceRuntimeContext

pub record InstanceManager : Type 0 where
  pub instances : Instances
  pub sync_channels : BTreeMap (ℕ × ℕ) InstanceSyncChannel

-- `InstanceManager::new`
abbrev pub new : InstanceManager
new = record { instances = []; sync_channels = [] }

-- `InstanceManager::find_isolation_conflict`
abbrev pub find_isolation_conflict : InstanceConfig → Instances → Option InstanceRuntimeContext
find_isolation_conflict config [] = none
find_isolation_conflict config ((id, existing) ∷ m) =
    if conflicts_with existing.config config
    then some existing
    else find_isolation_conflict config m

-- `InstanceManager::register_context`
pub register_context :
    InstanceRuntimeContext → InstanceManager → Result (Unit {0}) × InstanceManager
register_context context manager =
    let instance_id = context.config.instance_id in
    if BTreeMap.contains_key instance_id manager.instances
    then (err invalid_input, manager)
    else elim (find_isolation_conflict context.config manager.instances) [
      | some existing ↦ (err invalid_input, manager)
      | none ↦ (
        ok tt,
        record manager { instances = BTreeMap.insert instance_id context manager.instances },
      )
    ]

-- `InstanceManager::register`
abbrev pub register : InstanceConfig → InstanceManager → Result (Unit {0}) × InstanceManager
register config manager = register_context (record { config = config }) manager

-- `InstanceManager::get`
abbrev pub get : ℕ → InstanceManager → Option InstanceConfig
get instance_id manager = elim (BTreeMap.get instance_id manager.instances) [
  | none ↦ none
  | some context ↦ some context.config
]

abbrev pub unrelated : ℕ → ℕ × ℕ → InstanceSyncChannel → Bool
unrelated instance_id ends channel = not (ends.0 == instance_id) && not (ends.1 == instance_id)

-- `InstanceManager::remove`
pub remove : ℕ → InstanceManager → Option InstanceConfig × InstanceManager
remove instance_id manager = (
  get instance_id manager,
  record {
    instances = BTreeMap.remove instance_id manager.instances;
    sync_channels = BTreeMap.retain (unrelated instance_id) manager.sync_channels;
  },
)

-- `InstanceManager::register_sync_channel`
pub register_sync_channel :
    InstanceSyncChannel → InstanceManager → Result (Unit {0}) × InstanceManager
register_sync_channel channel manager =
    let source = channel.source_instance in
    let target = channel.target_instance in
    if not (BTreeMap.contains_key source manager.instances)
    then (err not_found, manager)
    else if not (BTreeMap.contains_key target manager.instances)
    then (err not_found, manager)
    else if BTreeMap.contains_key (source, target) manager.sync_channels
    then (err invalid_input, manager)
    else (
      ok tt,
      record manager {
        sync_channels = BTreeMap.insert (source, target) channel manager.sync_channels;
      },
    )

-- `InstanceManager::sync_channel`
abbrev pub sync_channel : ℕ → ℕ → InstanceManager → Option InstanceSyncChannel
sync_channel source target manager = BTreeMap.get (source, target) manager.sync_channels

-- `InstanceManager::remove_sync_channel`
pub remove_sync_channel : ℕ → ℕ → InstanceManager → Option InstanceSyncChannel × InstanceManager
remove_sync_channel source target manager = (
  sync_channel source target manager,
  record manager { sync_channels = BTreeMap.remove (source, target) manager.sync_channels },
)

-- A call of a client, who makes configurations with `isolated` and channels with `new`.
pub data Call : Type 0 where
  registering : ℕ → ℕ → ResourceLimits → Call
  removing : ℕ → Call
  connecting : ℕ → ℕ → InstanceSwitchPolicy → Call
  disconnecting : ℕ → ℕ → Call

pub step : Call → InstanceManager → InstanceManager
step (registering instance_id database_id limits) manager =
    (register (isolated instance_id database_id limits) manager).1
step (removing instance_id) manager = (remove instance_id manager).1
step (connecting source target policy) manager = elim (channel_new source target policy) [
  | err e ↦ manager
  | ok channel ↦ (register_sync_channel channel manager).1
]
step (disconnecting source target) manager = (remove_sync_channel source target manager).1

pub run : List Call → InstanceManager → InstanceManager
run [] manager = manager
run (call ∷ calls) manager = run calls (step call manager)
