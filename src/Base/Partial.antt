-- ===== src/Base/Partial.antt =====
-- Answers that may be missing.
use rnov_modular_db.Base.{Option, none, some}

-- `?` on an answer that may be missing, before the rest of a body
infixl 5 ◌>>=◌
abbrev pub ◌>>=◌ : {S T : Type 0} → Option S → (S → Option T) → Option T
answer >>= rest = elim answer [ none ↦ none | some a ↦ rest a ]
