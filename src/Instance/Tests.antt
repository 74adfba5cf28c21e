-- ===== src/Instance/Tests.antt =====
-- Instances of the theorems on instances, their limits, switches and manager.
use rnov_modular_db.Base.{◌≡◌, refl, ◌⊎◌, true, false, [], ◌∷◌, List, arith}
use rnov_modular_db.Common.{ok, err, invalid_input}
use rnov_modular_db.Collections.Order.{nat_order, pair_order}
use rnov_modular_db.Collections.BTreeMap
use rnov_modular_db.Instance.Limits.{ResourceLimits, ResourceUsage, default_limits, with_udf_budget}
use rnov_modular_db.Instance.Isolation.{InstanceConfig, isolated}
use rnov_modular_db.Instance.Switch.{
  hybrid_ready, memory, disk, full_data_movement, InstanceSyncStatus, status_new,
  can_switch_in_millis, require_millisecond_switch, millisecond_only, InstanceSwitchDecision,
  can_execute_immediately, InstanceSyncChannel, plan_switch,
}
use rnov_modular_db.Instance.Switch.Laws.{NeedsNoMove, status_new_iff, plan_switch_outcome}
use rnov_modular_db.Instance.Manager.{
  InstanceManager, new, Call, registering, removing, connecting, disconnecting, run,
}
use rnov_modular_db.Instance.Manager.Invariant.{IsIntact, run-new-IsIntact}

abbrev allowed : ResourceLimits
allowed = with_udf_budget (record { max_invocations = 3; max_memory_bytes = 512 }) default_limits

abbrev used : ResourceUsage
used = record {
  memory_bytes = 4096;
  temp_bytes = 0;
  worker_threads = 1;
  udf_invocations = 3;
  udf_memory_bytes = 100;
}

abbrev one : InstanceConfig
one = isolated 1 10 default_limits

abbrev two : InstanceConfig
two = isolated 2 10 default_limits

abbrev three : InstanceConfig
three = isolated 3 30 default_limits

abbrev ready : InstanceSyncStatus
ready = record {
  state = hybrid_ready;
  active_target = memory;
  memory_lsn = 7;
  disk_lsn = 7;
  dirty_bytes = 0;
  estimated_flush_bytes = 0;
}

made : status_new ready ≡ ok ready
made = (status_new_iff ready).0.1 (record {
  flush = ground arith;
  ready = λ _. (refl, refl);
  in_memory = λ h. absurd (cc);
  on_disk = λ h. absurd (cc);
})

abbrev link : InstanceSyncChannel
link = record { source_instance = 1; target_instance = 3; switch_policy = millisecond_only }

-- Instances 1 and 3, and a channel from the one to the other.
abbrev pair : InstanceManager
pair = record {
  instances = (1, record { config = one }) ∷ (3, record { config = three }) ∷ [];
  sync_channels = ((1, 3), link) ∷ [];
}

sorted : BTreeMap.IsSorted pair.instances
sorted = ((refl, tt), (tt, tt))

channels : BTreeMap.IsSorted pair.sync_channels
channels = (tt, tt)

abbrev calls : List Call
calls =
    registering 1 10 default_limits
    ∷ registering 2 10 default_limits
    ∷ registering 3 30 default_limits
    ∷ connecting 1 3 millisecond_only
    ∷ connecting 1 1 millisecond_only
    ∷ disconnecting 3 1
    ∷ removing 1
    ∷ []

plan_switch_outcome_example :
    (NeedsNoMove disk ready
      × ((d : InstanceSwitchDecision) × (plan_switch ready disk link ≡ ok d)
          × (d.target ≡ disk)
          × (can_execute_immediately d ≡ true)
          × (require_millisecond_switch disk ready ≡ ok d.movement)
          × (can_switch_in_millis disk ready ≡ true)))
    ⊎ (¬ NeedsNoMove disk ready
        × (can_switch_in_millis disk ready ≡ false)
        × (require_millisecond_switch disk ready ≡ err invalid_input)
        × (((link.switch_policy.millisecond_switch_required ≡ false)
              × (link.switch_policy.full_data_movement_allowed ≡ true)
              × ((d : InstanceSwitchDecision) × (plan_switch ready disk link ≡ ok d)
                  × (d.target ≡ disk)
                  × (d.movement ≡ full_data_movement)
                  × (d.dirty_bytes ≡ ready.dirty_bytes)))
            ⊎ (((link.switch_policy.millisecond_switch_required ≡ true)
                  ⊎ (link.switch_policy.full_data_movement_allowed ≡ false))
                × (plan_switch ready disk link ≡ err invalid_input))))
plan_switch_outcome_example = plan_switch_outcome disk ready link made

run-new-IsIntact_example : IsIntact (run calls new)
run-new-IsIntact_example = run-new-IsIntact calls
