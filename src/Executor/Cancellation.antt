-- ===== src/Executor/Cancellation.antt =====
-- crates/rnmdb-executor/src/memory.rs: `CancellationToken`, the flag that another thread may set.
-- What a running operation sees of it is when the flag is set: never, or behind so many checks.
use rnov_modular_db.Base.{ℕ, zero, suc}
use rnov_modular_db.Common.{Result, ok, err, canceled}

pub data CancellationToken : Type 0 where
  never : CancellationToken
  after : ℕ → CancellationToken

-- `CancellationToken::check`, with the token that is left
abbrev pub check : CancellationToken → Result CancellationToken
check never = ok never
check (after zero) = err canceled
check (after (suc n)) = ok (after n)

-- the flag may be set
abbrev pub CanCancel : CancellationToken → Type 0
CanCancel never = ⊥
CanCancel (after n) = Unit
