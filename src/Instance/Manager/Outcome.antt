-- ===== src/Instance/Manager/Outcome.antt =====
-- What each operation of `InstanceManager` answers and changes.
use rnov_modular_db.Base.{
  ℕ, ◌≡◌, ◌≢◌, refl, ◌⊎◌, inl, inr, true, false, ◌||◌, none, some, [], ◌∷◌, Bool-cases,
  Option-cases, arith, ◌==◌, if◌then◌else◌,
}
use rnov_modular_db.Common.{ok, err, invalid_input, not_found}
use rnov_modular_db.Collections.Order.{nat_order, pair_order, same, same_iff}
use rnov_modular_db.Collections.BTreeMap
use rnov_modular_db.Collections.BTreeMap.{get-insert, get-remove, get-retain}
use rnov_modular_db.Instance.Isolation.{InstanceConfig, conflicts_with, InstanceRuntimeContext}
use rnov_modular_db.Instance.Switch.{InstanceSyncChannel}
use rnov_modular_db.Instance.Manager.{
  Instances, InstanceManager, find_isolation_conflict, register, register_context, get, unrelated,
  remove, register_sync_channel, sync_channel,
}

-- An instance with which the configuration conflicts, if `find_isolation_conflict` finds one, and
-- otherwise that there is none.
pub find_isolation_conflict_lem :
    (config : InstanceConfig) (m : Instances)
    → BTreeMap.IsSorted m
    → ((find_isolation_conflict config m ≡ none)
        × ((i : ℕ) (c : InstanceRuntimeContext)
            → BTreeMap.get i m ≡ some c
            → conflicts_with c.config config ≡ false))
      ⊎ ((found : InstanceRuntimeContext) × (find_isolation_conflict config m ≡ some found)
          × (conflicts_with found.config config ≡ true)
          × ((i : ℕ) × (BTreeMap.get i m ≡ some found)))
find_isolation_conflict_lem config [] s = inl (refl, λ i c h. absurd (cc))
find_isolation_conflict_lem config ((j, d) ∷ m) s =
    elim (Bool-cases (conflicts_with d.config config)) [
      | inl clash ↦ inr (d, rw clash refl, clash, (j, ground (arith)))
      | inr apart ↦ elim (find_isolation_conflict_lem config m s.1) [
        | inl (clear, all) ↦
            inl (rw apart clear, λ i c h. ground (arith, all i c, same_iff i j, apart))
        | inr (found, is, clash, (i, at')) ↦ inr (
          found,
          rw apart is,
          clash,
          (i, ground (arith, BTreeMap.get-Above j m s.0, same_iff i j)),
        )
      ]
    ]

pub get-some :
    (i : ℕ) (c : InstanceConfig) (man : InstanceManager)
    → get i man ≡ some c
    → BTreeMap.get i man.instances ≡ some (record { config = c })
get-some i c man h = ground arith

-- An instance is registered exactly if its number is free and no registered instance conflicts
-- with it. It is then found under its number, and every other number finds what it did; a refusal
-- changes nothing.
pub register_outcome :
    (config : InstanceConfig) (man : InstanceManager)
    → BTreeMap.IsSorted man.instances
    → (((get config.instance_id man ≢ none)
          ⊎ ((i : ℕ) × (c : InstanceConfig) × (get i man ≡ some c)
              × (conflicts_with c config ≡ true)))
        × (register config man ≡ (err invalid_input, man)))
      ⊎ ((get config.instance_id man ≡ none)
          × ((i : ℕ) (c : InstanceConfig) → get i man ≡ some c → conflicts_with c config ≡ false)
          × ((register config man).0 ≡ ok tt)
          × ((i : ℕ)
              → get i (register config man).1
                ≡ (if same i config.instance_id then some config else get i man)))
unfolding register_context
register_outcome config man s =
    elim (Option-cases (BTreeMap.get config.instance_id man.instances)) [
      | inr (c, is) ↦ inl (inl (ground (arith, is)), ground (arith, is))
      | inl free ↦ elim (find_isolation_conflict_lem config man.instances s) [
        | inl (clear, all) ↦ inr (
          ground arith,
          λ i c h. ground (arith, all i (record { config = c }), get-some i c man h),
          ground arith,
          λ i.
              ground
                (arith, get-insert i config.instance_id (record { config = config }) man.instances),
        )
        | inr (found, is, clash, (i, at')) ↦
            inl (inr (i, found.config, ground arith, clash), ground arith)
      ]
    ]

-- Removing an instance answers what was registered under the number, and takes that instance and
-- every channel from it or to it away, and nothing else.
pub remove_outcome :
    (id : ℕ) (man : InstanceManager)
    → BTreeMap.IsSorted man.sync_channels
    → ((remove id man).0 ≡ get id man)
      × ((i : ℕ) → get i (remove id man).1 ≡ (if same i id then none else get i man))
      × ((s t : ℕ)
          → sync_channel s t (remove id man).1
            ≡ (if s == id || t == id then none else sync_channel s t man))
unfolding remove
remove_outcome id man sorted = (
  refl,
  λ i. ground (arith, get-remove i id man.instances),
  λ s t. ground (arith, get-retain (unrelated id) (s, t) man.sync_channels sorted),
)

-- A channel is registered exactly if both its instances are and there is none between them in that
-- direction. It is then found between its ends, all else is as before; a refusal changes nothing.
pub register_sync_channel_outcome :
    (ch : InstanceSyncChannel) (man : InstanceManager)
    → (((get ch.source_instance man ≡ none) ⊎ (get ch.target_instance man ≡ none))
        × (register_sync_channel ch man ≡ (err not_found, man)))
      ⊎ ((get ch.source_instance man ≢ none)
          × (get ch.target_instance man ≢ none)
          × (sync_channel ch.source_instance ch.target_instance man ≢ none)
          × (register_sync_channel ch man ≡ (err invalid_input, man)))
      ⊎ ((get ch.source_instance man ≢ none)
          × (get ch.target_instance man ≢ none)
          × (sync_channel ch.source_instance ch.target_instance man ≡ none)
          × ((register_sync_channel ch man).0 ≡ ok tt)
          × ((i : ℕ) → get i (register_sync_channel ch man).1 ≡ get i man)
          × ((s t : ℕ)
              → sync_channel s t (register_sync_channel ch man).1 ≡ (
                  if same {K = ℕ × ℕ} (s, t) (ch.source_instance, ch.target_instance)
                  then some ch
                  else sync_channel s t man)))
unfolding register_sync_channel
register_sync_channel_outcome ch man =
    elim (Option-cases (BTreeMap.get ch.source_instance man.instances)) [
      | inl no_source ↦ ground arith
      | inr (s, source) ↦ elim (Option-cases (BTreeMap.get ch.target_instance man.instances)) [
        | inl no_target ↦ ground arith
        | inr (t, target) ↦
            elim (Option-cases (sync_channel ch.source_instance ch.target_instance man)) [
              | inl free ↦ inr (
                  inr (
                    ground arith,
                    ground arith,
                    free,
                    ground arith,
                    λ i. ground arith,
                    λ s' t'. ground (
                      arith,
                      get-insert (s', t') (ch.source_instance, ch.target_instance) ch
                          man.sync_channels,
                    ),
                  ))
              | inr (old, taken) ↦ ground arith
            ]
      ]
    ]
