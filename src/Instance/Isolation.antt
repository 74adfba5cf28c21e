-- ===== src/Instance/Isolation.antt =====
-- crates/rnmdb-instance/src/lib.rs: `InstanceIsolation`, `InstanceConfig` and
-- `InstanceRuntimeContext`. The namespaces are texts, byte by byte, as `format!` prints them.
pub mod Laws
use rnov_modular_db.Base.{
  ℕ, zero, suc, ◌+◌, ◌*◌, ◌/◌, ◌%◌, Bool, ◌||◌, List, [], ◌∷◌, ◌++◌, ltb, ◌==◌, if◌then◌else◌,
}
use rnov_modular_db.Collections.Order.{same, list_order, nat_order}
use rnov_modular_db.Instance.Limits.{ResourceLimits}

abbrev pub Text : Type 0
Text = List ℕ

-- The decimal digits of a number, at most `fuel` of them; `n` has no more than `n + 1`.
abbrev pub digits : ℕ → ℕ → Text
digits zero n = []
digits (suc fuel) n =
    let front = digits fuel (n / 10) in
    if ltb n 10 then (48 + n) ∷ [] else front ++ (48 + n % 10) ∷ []

-- `Display` of an unsigned number.
pub decimal : ℕ → Text
decimal n = digits (suc n) n

pub record InstanceIsolation : Type 0 where
  pub catalog_namespace : Text
  pub key_namespace : Text
  pub buffer_namespace : Text
  pub transaction_namespace : Text
  pub temp_namespace : Text
  pub audit_namespace : Text
  pub metrics_namespace : Text
  pub background_worker_group : Text

-- The prefixes `catalog:`, `keys:`, `buffers:`, `transactions:`, `temp:`, `audit:`, `metrics:` and
-- `workers:`.
abbrev pub catalog_prefix : Text
catalog_prefix = 99 ∷ 97 ∷ 116 ∷ 97 ∷ 108 ∷ 111 ∷ 103 ∷ 58 ∷ []

abbrev pub keys_prefix : Text
keys_prefix = 107 ∷ 101 ∷ 121 ∷ 115 ∷ 58 ∷ []

abbrev pub buffers_prefix : Text
buffers_prefix = 98 ∷ 117 ∷ 102 ∷ 102 ∷ 101 ∷ 114 ∷ 115 ∷ 58 ∷ []

abbrev pub transactions_prefix : Text
transactions_prefix = 116 ∷ 114 ∷ 97 ∷ 110 ∷ 115 ∷ 97 ∷ 99 ∷ 116 ∷ 105 ∷ 111 ∷ 110 ∷ 115 ∷ 58 ∷ []

abbrev pub temp_prefix : Text
temp_prefix = 116 ∷ 101 ∷ 109 ∷ 112 ∷ 58 ∷ []

abbrev pub audit_prefix : Text
audit_prefix = 97 ∷ 117 ∷ 100 ∷ 105 ∷ 116 ∷ 58 ∷ []

abbrev pub metrics_prefix : Text
metrics_prefix = 109 ∷ 101 ∷ 116 ∷ 114 ∷ 105 ∷ 99 ∷ 115 ∷ 58 ∷ []

abbrev pub workers_prefix : Text
workers_prefix = 119 ∷ 111 ∷ 114 ∷ 107 ∷ 101 ∷ 114 ∷ 115 ∷ 58 ∷ []

-- `InstanceIsolation::for_instance`, on the printed number
abbrev pub with_suffix : Text → InstanceIsolation
with_suffix suffix = record {
  catalog_namespace = catalog_prefix ++ suffix;
  key_namespace = keys_prefix ++ suffix;
  buffer_namespace = buffers_prefix ++ suffix;
  transaction_namespace = transactions_prefix ++ suffix;
  temp_namespace = temp_prefix ++ suffix;
  audit_namespace = audit_prefix ++ suffix;
  metrics_namespace = metrics_prefix ++ suffix;
  background_worker_group = workers_prefix ++ suffix;
}

-- `InstanceIsolation::for_instance`
abbrev pub for_instance : ℕ → InstanceIsolation
for_instance instance_id = with_suffix (decimal instance_id)

-- `InstanceIsolation::has_namespace`
abbrev pub has_namespace : Text → InstanceIsolation → Bool
has_namespace namespace i =
    same namespace i.catalog_namespace
    || same namespace i.key_namespace
    || same namespace i.buffer_namespace
    || same namespace i.transaction_namespace
    || same namespace i.temp_namespace
    || same namespace i.audit_namespace
    || same namespace i.metrics_namespace
    || same namespace i.background_worker_group

-- `InstanceIsolation::conflicts_with`
abbrev pub shares_namespace : InstanceIsolation → InstanceIsolation → Bool
shares_namespace i other =
    has_namespace i.catalog_namespace other
    || has_namespace i.key_namespace other
    || has_namespace i.buffer_namespace other
    || has_namespace i.transaction_namespace other
    || has_namespace i.temp_namespace other
    || has_namespace i.audit_namespace other
    || has_namespace i.metrics_namespace other
    || has_namespace i.background_worker_group other

pub record InstanceConfig : Type 0 where
  pub instance_id : ℕ
  pub database_id : ℕ
  pub limits : ResourceLimits
  pub isolation : InstanceIsolation

-- `InstanceConfig::isolated`, the one way to make a configuration
abbrev pub isolated : ℕ → ℕ → ResourceLimits → InstanceConfig
isolated instance_id database_id limits = record {
  instance_id = instance_id;
  database_id = database_id;
  limits = limits;
  isolation = for_instance instance_id;
}

-- `InstanceConfig::conflicts_with`
pub conflicts_with : InstanceConfig → InstanceConfig → Bool
conflicts_with c other =
    c.instance_id == other.instance_id
    || c.database_id == other.database_id
    || shares_namespace c.isolation other.isolation

-- `InstanceRuntimeContext`; its other field is the registry of metrics, which no code of the
-- crate reads.
pub record InstanceRuntimeContext : Type 0 where
  pub config : InstanceConfig
