-- ===== src/Types/Float64.antt =====
-- crates/rnmdb-types/src/lib.rs: `SqlFloat64`. An `f64` is its bit pattern, below 2 ^ 64.
use rnov_modular_db.Base.{ℕ, ◌/◌, ◌%◌, ◌^◌, Bool, not, if◌then◌else◌, ◌==◌}
use rnov_modular_db.Common.{Result, ok, err, invalid_input}

pub record SqlFloat64 : Type 0 where
  pub bits : ℕ

-- `f64::is_finite`: the exponent is not all ones.
abbrev pub is_finite : ℕ → Bool
is_finite value = not (value / 2 ^ 52 % 2 ^ 11 == 2047)

-- `canonical_bits`; the patterns equal to 0.0 are those of 0.0 and -0.0.
abbrev pub canonical_bits : ℕ → ℕ
canonical_bits value = if value % 2 ^ 63 == 0 then 0 else value

-- `SqlFloat64::new`
abbrev pub float64_new : ℕ → Result SqlFloat64
float64_new value =
    if not (is_finite value) then err invalid_input else ok (record { bits = canonical_bits value })
