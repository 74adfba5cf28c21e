-- ===== src/Executor/SetOps/Yields.antt =====
-- crates/rnmdb-executor/src/memory/set_ops.rs: loops that check for cancellation at each row.
use rnov_modular_db.Base.{zero, suc, ◌≡◌, refl, List, ◌∷◌}
use rnov_modular_db.Common.{Result, ok, err, canceled, ◌>>=◌}
use rnov_modular_db.Executor.Values.{SqlValues}
use rnov_modular_db.Executor.Vector.{Row}
use rnov_modular_db.Executor.Cancellation.{CancellationToken, never, after, check, CanCancel}
use rnov_modular_db.Executor.SetOps.{push_row}

-- The answer satisfies `P`, or the token has canceled the operation.
unfoldable pub Yields :
    {A : Type 0} → CancellationToken → (A → Type 0) → Result (A × CancellationToken) → Type 0
Yields token P (err e) = (e ≡ canceled) × CanCancel token
Yields token P (ok (a, left)) = P a × (CanCancel left → CanCancel token)

module _ {A : Type 0} (P : A → Type 0) where
  Yields-left :
      (token left : CancellationToken) (r : Result (A × CancellationToken))
      → (CanCancel left → CanCancel token)
      → Yields left P r
      → Yields token P r
  unfolding Yields
  Yields-left token left (err e) c h = (h.0, c h.1)
  Yields-left token left (ok (a, last)) c h = (h.0, λ k. c (h.1 k))

module _ {A : Type 0} (P : A → Type 0) where
  pub ok-Yields : (token : CancellationToken) (a : A) → P a → Yields token P (ok (a, token))
  unfolding Yields
  ok-Yields token a h = (h, λ c. c)

  pub Yields-never :
      (r : Result (A × CancellationToken))
      → Yields never P r
      → (a : A) × (left : CancellationToken) × (r ≡ ok (a, left)) × P a
  unfolding Yields
  Yields-never (ok (a, left)) h = (a, left, refl, h.0)
  Yields-never (err e) h = elim h.1 [ ]

  pub Yields-ok : (token left : CancellationToken) (a : A) → Yields token P (ok (a, left)) → P a
  unfolding Yields
  Yields-ok token left a h = h.0

  pub check-Yields :
      (token : CancellationToken) (rest : CancellationToken → Result (A × CancellationToken))
      → ((left : CancellationToken) → Yields left P (rest left))
      → Yields token P (check token >>= rest)
  unfolding Yields
  check-Yields never rest h = h never
  check-Yields (after zero) rest h = (refl, tt)
  check-Yields (after (suc n)) rest h =
      Yields-left P (after (suc n)) (after n) (rest (after n)) (λ c. tt) (h (after n))

  pub bind-Yields :
      {B : Type 0} (Q : B → Type 0) (token : CancellationToken) (r : Result (A × CancellationToken))
      (rest : A × CancellationToken → Result (B × CancellationToken))
      → Yields token P r
      → ((a : A) (left : CancellationToken) → P a → Yields left Q (rest (a, left)))
      → Yields token Q (r >>= rest)
  unfolding Yields
  bind-Yields Q token (err e) rest h k = h
  bind-Yields Q token (ok (a, left)) rest h k =
      Yields-left Q token left (rest (a, left)) h.1 (k a left h.0)

pub push-Yields :
    {V : SqlValues} (P Q : List (Row V) → Type 0) (row : Row V) (token : CancellationToken)
    (r : Result (List (Row V) × CancellationToken))
    → Yields token P r
    → ((rows : List (Row V)) → P rows → Q (row ∷ rows))
    → Yields token Q (push_row row r)
unfolding Yields
push-Yields P Q row token (err e) h k = h
push-Yields P Q row token (ok (rows, left)) h k = (k rows h.0, h.1)

pub Yields-weaken :
    {A : Type 0} (P Q : A → Type 0) (token : CancellationToken) (r : Result (A × CancellationToken))
    → Yields token P r
    → ((a : A) → P a → Q a)
    → Yields token Q r
unfolding Yields
Yields-weaken P Q token (err e) h k = h
Yields-weaken P Q token (ok (a, left)) h k = (k a h.0, h.1)
