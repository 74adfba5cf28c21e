-- ===== src/Instance/Switch/Laws.antt =====
-- When a switch is planned, and when without moving data.
use rnov_modular_db.Base.{
  ℕ, ◌≤◌, ◌≡◌, ◌≢◌, refl, ◌↔◌, ◌⊎◌, inl, inr, true, false, Bool-cases, arith,
}
use rnov_modular_db.Common.{ok, err, invalid_input}
use rnov_modular_db.Instance.Switch.{
  InstanceSyncState, InstanceSyncTarget, SwitchDataMovement, memory_only, disk_only, hybrid_ready,
  memory, disk, full_data_movement, target_eq, is_hybrid_ready, InstanceSyncStatus, status_new,
  switch_data_movement, is_full, can_switch_in_millis, require_millisecond_switch,
  InstanceSwitchPolicy, validate_switch, InstanceSwitchDecision, can_execute_immediately,
  InstanceSyncChannel, channel_new, plan_switch,
}

target_eq_iff : (t u : InstanceSyncTarget) → (target_eq t u ≡ true) ↔ (t ≡ u)
target_eq_iff t u = ground arith

-- What a status must say to be one.
pub record IsConsistent (s : InstanceSyncStatus) : Type 0 where
  pub flush : s.dirty_bytes ≤ s.estimated_flush_bytes
  pub ready : s.state ≡ hybrid_ready → (s.dirty_bytes ≡ 0) × (s.memory_lsn ≡ s.disk_lsn)
  pub in_memory : s.state ≡ memory_only → s.active_target ≡ memory
  pub on_disk : s.state ≡ disk_only → s.active_target ≡ disk

is_full_only : (m : SwitchDataMovement) → is_full m ≡ true → m ≡ full_data_movement
is_full_only m h = ground arith

hybrid_ready_iff : (st : InstanceSyncState) → (is_hybrid_ready st ≡ true) ↔ (st ≡ hybrid_ready)
hybrid_ready_iff st = ground arith

status_new-ok : (s : InstanceSyncStatus) → IsConsistent s → status_new s ≡ ok s
unfolding status_new
status_new-ok s w =
    ground (arith, w.flush, w.ready, w.in_memory, w.on_disk, hybrid_ready_iff s.state)

-- `InstanceSyncStatus::new` makes the status exactly if it is consistent: the flush estimate covers
-- the dirty bytes, a ready hybrid has equal positions and nothing dirty, and an instance that lives
-- in memory or on disk alone targets it. All else is refused as invalid input.
pub status_new_iff :
    (s : InstanceSyncStatus)
    → ((status_new s ≡ ok s) ↔ IsConsistent s)
      × ((status_new s ≡ ok s) ⊎ (status_new s ≡ err invalid_input))
unfolding status_new
status_new_iff s = (
  (
    λ h. record {
      flush = ground arith;
      ready = λ r. ground (arith, r);
      in_memory = λ m. ground (arith, m, target_eq_iff s.active_target memory);
      on_disk = λ d. ground (arith, d, target_eq_iff s.active_target disk);
    },
    λ w. status_new-ok s w,
  ),
  ground arith,
)

-- Whether data must be moved to reach the target: the status already serves it, or it is a ready
-- hybrid, or neither.
abbrev pub NeedsNoMove : InstanceSyncTarget → InstanceSyncStatus → Type 0
NeedsNoMove t s = (t ≡ s.active_target) ⊎ (s.state ≡ hybrid_ready)

movement_cases :
    (t : InstanceSyncTarget) (s : InstanceSyncStatus)
    → IsConsistent s
    → (NeedsNoMove t s × (is_full (switch_data_movement t s) ≡ false))
      ⊎ (¬ NeedsNoMove t s × (is_full (switch_data_movement t s) ≡ true))
unfolding switch_data_movement
movement_cases t s c =
    ground (arith, target_eq_iff t s.active_target, c.ready, hybrid_ready_iff s.state)

-- A channel plans a switch exactly if no data has to be moved, or its policy allows that and does
-- not ask for milliseconds; all else is refused. Without a move the plan can be carried out at once,
-- and `can_switch_in_millis` and `require_millisecond_switch` agree with it.
pub plan_switch_outcome :
    (t : InstanceSyncTarget) (s : InstanceSyncStatus) (ch : InstanceSyncChannel)
    → status_new s ≡ ok s
    → (NeedsNoMove t s
        × ((d : InstanceSwitchDecision) × (plan_switch s t ch ≡ ok d)
            × (d.target ≡ t)
            × (can_execute_immediately d ≡ true)
            × (require_millisecond_switch t s ≡ ok d.movement)
            × (can_switch_in_millis t s ≡ true)))
      ⊎ (¬ NeedsNoMove t s
          × (can_switch_in_millis t s ≡ false)
          × (require_millisecond_switch t s ≡ err invalid_input)
          × (((ch.switch_policy.millisecond_switch_required ≡ false)
                × (ch.switch_policy.full_data_movement_allowed ≡ true)
                × ((d : InstanceSwitchDecision) × (plan_switch s t ch ≡ ok d)
                    × (d.target ≡ t)
                    × (d.movement ≡ full_data_movement)
                    × (d.dirty_bytes ≡ s.dirty_bytes)))
              ⊎ (((ch.switch_policy.millisecond_switch_required ≡ true)
                    ⊎ (ch.switch_policy.full_data_movement_allowed ≡ false))
                  × (plan_switch s t ch ≡ err invalid_input))))
unfolding plan_switch validate_switch can_switch_in_millis require_millisecond_switch
plan_switch_outcome t s ch made =
    let c = (status_new_iff s).0.0 made in
    let d : InstanceSwitchDecision = record {
      target = t;
      movement = switch_data_movement t s;
      dirty_bytes = s.dirty_bytes;
      estimated_flush_bytes = s.estimated_flush_bytes;
    } in
    elim (movement_cases t s c) [
      | inl (stays, light) ↦
          inl (stays, (d, rw light refl, refl, rw light refl, rw light refl, rw light refl))
      | inr (moves, full) ↦ inr (
        moves,
        rw full refl,
        rw full refl,
        elim (Bool-cases ch.switch_policy.millisecond_switch_required) [
          | inl fast ↦ inr (inl fast, ground arith)
          | inr slow ↦ elim (Bool-cases ch.switch_policy.full_data_movement_allowed) [
            | inl allowed ↦ inl (slow, allowed, (d, ground arith, refl, is_full_only _ full, refl))
            | inr forbidden ↦ inr (inr forbidden, ground arith)
          ]
        ],
      )
    ]

-- A channel has two ends: `InstanceSyncChannel::new` refuses exactly one and the same instance.
pub channel_new_outcome :
    (s t : ℕ) (policy : InstanceSwitchPolicy)
    → ((s ≡ t) × (channel_new s t policy ≡ err invalid_input))
      ⊎ ((s ≢ t)
          × (channel_new s t policy
              ≡ ok (record { source_instance = s; target_instance = t; switch_policy = policy })))
unfolding channel_new
channel_new_outcome s t policy = ground arith
