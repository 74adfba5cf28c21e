-- ===== src/Instance/Manager/Invariant.antt =====
-- The invariant of `InstanceManager`: registered instances do not conflict, and a channel joins two
-- of them.
use rnov_modular_db.Base.{
  ℕ, ◌≡◌, ◌≢◌, refl, sym, ◌∙◌, inl, inr, true, false, none, some, List, [], ◌∷◌, Bool-cases, arith,
}
use rnov_modular_db.Collections.Order.{nat_order, pair_order, same_iff}
use rnov_modular_db.Collections.BTreeMap
use rnov_modular_db.Collections.BTreeMap.{
  get-insert, insert-cases, get-remove, get-retain, insert-IsSorted, retain-IsSorted,
}
use rnov_modular_db.Instance.Isolation.{
  InstanceConfig, isolated, conflicts_with, InstanceRuntimeContext,
}
use rnov_modular_db.Instance.Isolation.Laws.{IsIsolated, conflicts_with_iff}
use rnov_modular_db.Instance.Switch.{InstanceSyncChannel}
use rnov_modular_db.Instance.Switch.Laws.{channel_new_outcome}
use rnov_modular_db.Instance.Manager.{
  InstanceManager, register, register_context, unrelated, remove, register_sync_channel,
  remove_sync_channel, new, Call, registering, removing, connecting, disconnecting, step, run,
}
use rnov_modular_db.Instance.Manager.Outcome.{find_isolation_conflict_lem}

pub record IsIntact (man : InstanceManager) : Type 0 where
  pub sorted : BTreeMap.IsSorted man.instances
  pub channels_sorted : BTreeMap.IsSorted man.sync_channels
  -- an instance stands under its own number, in the isolation of that number
  pub keyed :
      (i : ℕ) (c : InstanceRuntimeContext)
      → BTreeMap.get i man.instances ≡ some c
      → (c.config.instance_id ≡ i) × IsIsolated c.config
  pub apart :
      (i j : ℕ) (c d : InstanceRuntimeContext)
      → i ≢ j
      → BTreeMap.get i man.instances ≡ some c
      → BTreeMap.get j man.instances ≡ some d
      → conflicts_with c.config d.config ≡ false
  pub linked :
      (s t : ℕ) (ch : InstanceSyncChannel)
      → BTreeMap.get (s, t) man.sync_channels ≡ some ch
      → (ch.source_instance ≡ s)
        × (ch.target_instance ≡ t)
        × (s ≢ t)
        × (BTreeMap.contains_key s man.instances ≡ true)
        × (BTreeMap.contains_key t man.instances ≡ true)

-- Between isolated configurations, conflict goes both ways.
conflicts_with-sym :
    (c d : InstanceConfig)
    → IsIsolated c
    → IsIsolated d
    → conflicts_with c d ≡ false
    → conflicts_with d c ≡ false
conflicts_with-sym c d i j h =
    ground (arith, conflicts_with_iff c d i j, conflicts_with_iff d c j i)

insert-IsIntact :
    (config : InstanceConfig) (man : InstanceManager)
    → IsIntact man
    → IsIsolated config
    → BTreeMap.get config.instance_id man.instances ≡ none
    → ((i : ℕ) (c : InstanceRuntimeContext)
        → BTreeMap.get i man.instances ≡ some c
        → conflicts_with c.config config ≡ false)
    → IsIntact (record man {
      instances = BTreeMap.insert config.instance_id (record { config = config }) man.instances;
    })
insert-IsIntact config man v iso free all =
    let fresh : InstanceRuntimeContext = record { config = config } in
    let from =
      λ (i : ℕ) (c : InstanceRuntimeContext)
          (h : BTreeMap.get i (BTreeMap.insert config.instance_id fresh man.instances) ≡ some c).
        insert-cases i config.instance_id fresh c man.instances h in
    record {
      sorted = insert-IsSorted config.instance_id fresh man.instances v.sorted;
      channels_sorted = v.channels_sorted;
      keyed = λ i c h. elim (from i c h) [
        | inl (e, is) ↦ rw (e, is) (refl, iso)
        | inr (_, before) ↦ v.keyed i c before
      ];
      apart = λ i j c d ne h k. elim (from i c h) [
        | inl (e, is) ↦ elim (from j d k) [
          | inl (e', _) ↦ absurd (ne (e ∙ sym e'))
          | inr (_, other) ↦
              rw is (conflicts_with-sym d.config config (v.keyed j d other).1 iso (all j d other))
        ]
        | inr (_, one) ↦ elim (from j d k) [
          | inl (_, is) ↦ rw is (all i c one)
          | inr (_, other) ↦ v.apart i j c d ne one other
        ]
      ];
      linked = λ s t ch h. ground (
        arith,
        v.linked s t ch h,
        get-insert s config.instance_id fresh man.instances,
        get-insert t config.instance_id fresh man.instances,
      );
    }

register-IsIntact :
    (config : InstanceConfig) (man : InstanceManager)
    → IsIsolated config
    → IsIntact man
    → IsIntact (register config man).1
unfolding register_context
register-IsIntact config man iso v =
    elim (Bool-cases (BTreeMap.contains_key config.instance_id man.instances)) [
      | inl taken ↦ rw taken v
      | inr free ↦ elim (find_isolation_conflict_lem config man.instances v.sorted) [
        | inl (clear, all) ↦
            rw (free, register_context, clear) (insert-IsIntact config man v iso (ground arith) all)
        | inr (found, is, _, _) ↦ rw (free, register_context, is) v
      ]
    ]

remove-IsIntact : (id : ℕ) (man : InstanceManager) → IsIntact man → IsIntact (remove id man).1
unfolding remove
remove-IsIntact id man v = record {
  sorted = retain-IsSorted _ man.instances v.sorted;
  channels_sorted = retain-IsSorted _ man.sync_channels v.channels_sorted;
  keyed = λ i c h. ground (arith, v.keyed i c, get-remove i id man.instances, h);
  apart = λ i j c d ne h k.
      ground
        (arith, v.apart i j c d ne, get-remove i id man.instances, get-remove j id man.instances);
  linked = λ s t ch h. ground (
    arith,
    v.linked s t ch,
    get-retain (unrelated id) (s, t) man.sync_channels v.channels_sorted,
    get-remove s id man.instances,
    get-remove t id man.instances,
    same_iff s id,
    same_iff t id,
  );
}

link-IsIntact :
    (ch : InstanceSyncChannel) (man : InstanceManager)
    → ch.source_instance ≢ ch.target_instance
    → IsIntact man
    → BTreeMap.contains_key ch.source_instance man.instances ≡ true
    → BTreeMap.contains_key ch.target_instance man.instances ≡ true
    → IsIntact (record man {
      sync_channels = BTreeMap.insert (ch.source_instance, ch.target_instance) ch man.sync_channels;
    })
link-IsIntact ch man distinct v source target =
    let ends : ℕ × ℕ = (ch.source_instance, ch.target_instance) in
    record {
      sorted = v.sorted;
      channels_sorted = insert-IsSorted ends ch man.sync_channels v.channels_sorted;
      keyed = v.keyed;
      apart = v.apart;
      linked = λ s t link h. elim (insert-cases (s, t) ends ch link man.sync_channels h) [
        | inl (e, is) ↦ ground (arith, e, is, distinct, source, target)
        | inr (_, before) ↦ v.linked s t link before
      ];
    }

register_sync_channel-IsIntact :
    (ch : InstanceSyncChannel) (man : InstanceManager)
    → ch.source_instance ≢ ch.target_instance
    → IsIntact man
    → IsIntact (register_sync_channel ch man).1
unfolding register_sync_channel
register_sync_channel-IsIntact ch man distinct v =
    elim (Bool-cases (BTreeMap.contains_key ch.source_instance man.instances)) [
      | inr no_source ↦ rw no_source v
      | inl source ↦ elim (Bool-cases (BTreeMap.contains_key ch.target_instance man.instances)) [
        | inr no_target ↦ rw (source, register_sync_channel, no_target) v
        | inl target ↦
            elim (Bool-cases
              (BTreeMap.contains_key (ch.source_instance, ch.target_instance) man.sync_channels)) [
                | inl taken ↦ rw (source, register_sync_channel, target, taken) v
                | inr free ↦
                    rw (source, register_sync_channel, target, free)
                      (link-IsIntact ch man distinct v source target)
              ]
      ]
    ]

remove_sync_channel-IsIntact :
    (s t : ℕ) (man : InstanceManager) → IsIntact man → IsIntact (remove_sync_channel s t man).1
unfolding remove_sync_channel
remove_sync_channel-IsIntact s t man v = record {
  sorted = v.sorted;
  channels_sorted = retain-IsSorted _ man.sync_channels v.channels_sorted;
  keyed = v.keyed;
  apart = v.apart;
  linked = λ s' t' ch h.
      ground (arith, v.linked s' t' ch, get-remove (s', t') (s, t) man.sync_channels, h);
}

step-IsIntact : (call : Call) (man : InstanceManager) → IsIntact man → IsIntact (step call man)
unfolding step
step-IsIntact (registering id db limits) man v =
    register-IsIntact (isolated id db limits) man refl v
step-IsIntact (removing id) man v = remove-IsIntact id man v
step-IsIntact (connecting s t policy) man v = elim (channel_new_outcome s t policy) [
  | inl (_, refused) ↦ rw (refused, step) v
  | inr (distinct, made) ↦ rw (made, step) (register_sync_channel-IsIntact _ man distinct v)
]
step-IsIntact (disconnecting s t) man v = remove_sync_channel-IsIntact s t man v

-- Calls keep the invariant.
run-IsIntact : (calls : List Call) (man : InstanceManager) → IsIntact man → IsIntact (run calls man)
unfolding run
run-IsIntact [] man v = v
run-IsIntact (call ∷ calls) man v = run-IsIntact calls (step call man) (step-IsIntact call man v)

-- After any calls, refused ones among them, an instance stands under its own number in its own
-- isolation, no two registered instances conflict in number, database or namespace, and every
-- channel leads from one registered instance to a different one.
pub run-new-IsIntact : (calls : List Call) → IsIntact (run calls new)
run-new-IsIntact calls = run-IsIntact calls new (record {
  sorted = tt;
  channels_sorted = tt;
  keyed = λ i c h. absurd (cc);
  apart = λ i j c d ne h k. absurd (cc);
  linked = λ s t ch h. absurd (cc);
})
