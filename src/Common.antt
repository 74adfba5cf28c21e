-- ===== src/Common.antt =====
-- crates/rnmdb-common: the error type that every crate returns.
-- The message and the private context of an error are text for a reader; no code of the modelled
-- crates branches on them, so an error is its kind.
use rnov_modular_db.Base.{◌≡◌, refl, ◌⊎◌, inl, inr, Bool, true, false}

-- `ErrorKind`
pub data ErrorKind : Type 0 where
  canceled config corruption internal invalid_input io not_found security storage : ErrorKind

-- `Result<T>`, with the error reduced to its kind
pub data Result {κ} (T : Type κ) : Type κ where
  err : ErrorKind → Result T
  ok : T → Result T

-- `if refused { return Err(...) }`
abbrev pub reject_if : Bool → ErrorKind → Result (Unit {0})
reject_if false e = ok tt
reject_if true e = err e

-- The operator `?` before the rest of a body.
infixl 5 ◌>>=◌ ◌>>◌
abbrev pub ◌>>=◌ {ℓ κ} : {S : Type ℓ} {T : Type κ} → Result S → (S → Result T) → Result T
r >>= rest = elim r [ err e ↦ err e | ok a ↦ rest a ]

abbrev pub ◌>>◌ {ℓ} : {T : Type ℓ} → Result (Unit {0}) → Result T → Result T
r >> rest = elim r [ err e ↦ err e | ok _ ↦ rest ]

pub Result-cases {ℓ} :
    {T : Type ℓ} (r : Result T) → ((a : T) × (r ≡ ok a)) ⊎ ((e : ErrorKind) × (r ≡ err e))
Result-cases (ok a) = inl (a, refl)
Result-cases (err e) = inr (e, refl)
