-- ===== src/Instance/Limits.antt =====
-- crates/rnmdb-instance/src/lib.rs: `ResourceLimits`, `ResourceUsage` and
-- `InstanceConfig::check_resource_usage`. A `Duration` is its number of nanoseconds.
use rnov_modular_db.Base.{ℕ, zero, suc, ◌*◌, ◌≤◌, ◌≡◌, ◌↔◌, ◌⊎◌, inl, ltb, ◌==◌, arith}
use rnov_modular_db.Common.{Result, ok, err, invalid_input, reject_if, ◌>>◌}

pub record UdfBudget : Type 0 where
  pub max_invocations : ℕ
  pub max_memory_bytes : ℕ

pub record ResourceLimits : Type 0 where
  pub max_memory_bytes : ℕ
  pub max_worker_threads : ℕ
  pub max_temp_bytes : ℕ
  pub statement_timeout : ℕ
  pub udf_budget : UdfBudget

abbrev pub no_udf : UdfBudget
no_udf = record { max_invocations = 0; max_memory_bytes = 0 }

-- `ResourceLimits::new`
pub limits_new : ℕ → ℕ → ℕ → ℕ → Result ResourceLimits
limits_new max_memory_bytes max_worker_threads max_temp_bytes statement_timeout =
    reject_if (max_memory_bytes == 0) invalid_input
    >> reject_if (max_worker_threads == 0) invalid_input
    >> reject_if (statement_timeout == 0) invalid_input
    >> ok (record {
      max_memory_bytes = max_memory_bytes;
      max_worker_threads = max_worker_threads;
      max_temp_bytes = max_temp_bytes;
      statement_timeout = statement_timeout;
      udf_budget = no_udf;
    })

-- `ResourceLimits::with_udf_budget`
abbrev pub with_udf_budget : UdfBudget → ResourceLimits → ResourceLimits
with_udf_budget budget limits = record limits { udf_budget = budget }

-- `ResourceLimits::default`
abbrev pub default_limits : ResourceLimits
default_limits = record {
  max_memory_bytes = 64 * 1024 * 1024;
  max_worker_threads = 1;
  max_temp_bytes = 0;
  statement_timeout = 30 * 1000000000;
  udf_budget = no_udf;
}

pub record ResourceUsage : Type 0 where
  pub memory_bytes : ℕ
  pub temp_bytes : ℕ
  pub worker_threads : ℕ
  pub udf_invocations : ℕ
  pub udf_memory_bytes : ℕ

-- `InstanceConfig::check_resource_usage`, which reads the limits of the configuration
pub check_resource_usage : ResourceUsage → ResourceLimits → Result (Unit {0})
check_resource_usage usage limits =
    reject_if (ltb limits.max_memory_bytes usage.memory_bytes) invalid_input
    >> reject_if (ltb limits.max_temp_bytes usage.temp_bytes) invalid_input
    >> reject_if (ltb limits.max_worker_threads usage.worker_threads) invalid_input
    >> reject_if (ltb limits.udf_budget.max_invocations usage.udf_invocations) invalid_input
    >> reject_if (ltb limits.udf_budget.max_memory_bytes usage.udf_memory_bytes) invalid_input
    >> ok tt

-- Every demand is within its limit.
pub record Within (usage : ResourceUsage) (limits : ResourceLimits) : Type 0 where
  pub memory : usage.memory_bytes ≤ limits.max_memory_bytes
  pub temp : usage.temp_bytes ≤ limits.max_temp_bytes
  pub workers : usage.worker_threads ≤ limits.max_worker_threads
  pub invocations : usage.udf_invocations ≤ limits.udf_budget.max_invocations
  pub udf_memory : usage.udf_memory_bytes ≤ limits.udf_budget.max_memory_bytes

-- A use of resources passes exactly if each of the five demands is within its limit; otherwise it is
-- refused as invalid input.
pub check_resource_usage_iff :
    (usage : ResourceUsage) (limits : ResourceLimits)
    → ((check_resource_usage usage limits ≡ ok tt) ↔ Within usage limits)
      × ((check_resource_usage usage limits ≡ ok tt)
          ⊎ (check_resource_usage usage limits ≡ err invalid_input))
unfolding check_resource_usage
check_resource_usage_iff usage limits = (
  (
    λ h. record {
      memory = ground arith;
      temp = ground arith;
      workers = ground arith;
      invocations = ground arith;
      udf_memory = ground arith;
    },
    λ w. ground (arith, w.memory, w.temp, w.workers, w.invocations, w.udf_memory),
  ),
  ground arith,
)

-- Limits of an instance allow some memory, a worker and some time, and no UDF until a budget is
-- given; whatever is not of this kind is refused.
pub limits_new_outcome :
    (memory workers temp timeout : ℕ)
    → ((1 ≤ memory)
        × (1 ≤ workers)
        × (1 ≤ timeout)
        × ((limits : ResourceLimits) × (limits_new memory workers temp timeout ≡ ok limits)
            × ((usage : ResourceUsage)
                → check_resource_usage usage limits ≡ ok tt
                → (usage.memory_bytes ≤ memory)
                  × (usage.temp_bytes ≤ temp)
                  × (usage.worker_threads ≤ workers)
                  × (usage.udf_invocations ≡ 0))))
      ⊎ (((memory ≡ 0) ⊎ (workers ≡ 0) ⊎ (timeout ≡ 0))
          × (limits_new memory workers temp timeout ≡ err invalid_input))
unfolding limits_new
limits_new_outcome zero workers temp timeout = ground arith
limits_new_outcome (suc memory) zero temp timeout = ground arith
limits_new_outcome (suc memory) (suc workers) temp zero = ground arith
limits_new_outcome (suc memory) (suc workers) temp (suc timeout) =
    let limits : ResourceLimits = record {
      max_memory_bytes = suc memory;
      max_worker_threads = suc workers;
      max_temp_bytes = temp;
      statement_timeout = suc timeout;
      udf_budget = no_udf;
    } in
    inl (
      ground arith,
      ground arith,
      ground arith,
      (
        limits,
        ground arith,
        λ usage h.
            let within = (check_resource_usage_iff usage limits).0.0 h in
            ground (arith, within.memory, within.temp, within.workers, within.invocations),
      ),
    )
