-- ===== src/Sql/Lexer/Spans.antt =====
-- crates/rnmdb-sql/src/lexer.rs: the positions of the tokens, and the end of the loop.
use rnov_modular_db.Base.{
  ℕ, zero, suc, ◌+◌, ◌<◌, ◌≡◌, refl, subst, sym, ◌∙◌, Option, some, List, [], ◌∷◌, ◌++◌, arith, inl,
  inr, length,
}
use rnov_modular_db.Common.{ErrorKind, Result, ok, err, ◌>>=◌, Result-cases}
use rnov_modular_db.Sql.Token.{Text, Token}
use rnov_modular_db.Sql.Bytes.{byte_len}
use rnov_modular_db.Sql.Lexer.{Round, lex_round, lex_loop, lex}
use rnov_modular_db.Sql.Lexer.Rounds.{InOrder, InOrder-append, RoundReads, lex_round-RoundReads}

-- The tokens of a text that starts at `low`.
abbrev TokensFrom : ℕ → Text → Result (List Token) → Type 0
TokensFrom low cs (err e) = Unit
TokensFrom low cs (ok ts) = InOrder low (low + byte_len cs) ts

TokensFrom-round :
    (low : ℕ) (cs : Text) (round : Round) (r : Result (List Token))
    → RoundReads low cs (ok round)
    → TokensFrom round.1.position round.1.rest r
    → TokensFrom low cs (r >>= (λ more. ok (round.0 ++ more)))
unfolding RoundReads
TokensFrom-round low cs round (err e) h k = tt
TokensFrom-round low cs round (ok ts) h k =
    InOrder-append low round.1.position (low + byte_len cs) round.0 ts h.2
      (subst (λ high. InOrder round.1.position high ts) h.0 k)

round-shorter :
    (low : ℕ) (cs : Text) (round : Round)
    → RoundReads low cs (ok round)
    → length round.1.rest < length cs
unfolding RoundReads
round-shorter low cs round h = h.1

module _ (parse_f64 : Text → Option ℕ) (fuel low c : ℕ) (cs : Text) where
  pub lex_loop_ok :
      (round : Round) (r : Result (List Token))
      → lex_round parse_f64 low c cs ≡ ok round
      → lex_loop parse_f64 fuel round.1 ≡ some r
      → lex_loop parse_f64 (suc fuel) (record { position = low; rest = c ∷ cs })
        ≡ some (r >>= (λ more. ok (round.0 ++ more)))
  unfolding lex_loop
  lex_loop_ok round r h k = rw (h, lex_loop) (rw (k, lex_loop) refl)

  lex_loop_err :
      (e : ErrorKind)
      → lex_round parse_f64 low c cs ≡ err e
      → lex_loop parse_f64 (suc fuel) (record { position = low; rest = c ∷ cs }) ≡ some (err e)
  unfolding lex_loop
  lex_loop_err e h = rw (h, lex_loop) refl

lex_loop-TokensFrom :
    (parse_f64 : Text → Option ℕ) (fuel low : ℕ) (cs : Text)
    → length cs < fuel
    → (r : Result (List Token)) × (lex_loop parse_f64 fuel (record { position = low; rest = cs })
        ≡ some r)
      × TokensFrom low cs r
unfolding lex_loop
lex_loop-TokensFrom parse_f64 zero low cs h = elim h [ ]
lex_loop-TokensFrom parse_f64 (suc fuel) low [] h = (ok [], refl, omega arith)
lex_loop-TokensFrom parse_f64 (suc fuel) low (c ∷ cs) h =
    elim (Result-cases (lex_round parse_f64 low c cs)) [
      | inr (e, k) ↦ (err e, lex_loop_err parse_f64 fuel low c cs e k, tt)
      | inl (round, k) ↦
          let reads = rw k at (lex_round-RoundReads parse_f64 low c cs) in
          let further =
            lex_loop-TokensFrom parse_f64 fuel round.1.position round.1.rest
              (omega (arith, round-shorter low (c ∷ cs) round reads)) in
          (
            further.0 >>= (λ more. ok (round.0 ++ more)),
            lex_loop_ok parse_f64 fuel low c cs round further.0 k further.1,
            TokensFrom-round low (c ∷ cs) round further.0 reads further.2,
          )
    ]

-- For every text the loop ends within the fuel that `lex` has, one round for each character and
-- one more: `lex` returns tokens or an error.
pub lex_terminates :
    (parse_f64 : Text → Option ℕ) (input : Text)
    → (r : Result (List Token)) × (lex parse_f64 input ≡ some r)
unfolding lex
lex_terminates parse_f64 input =
    let run = lex_loop-TokensFrom parse_f64 (suc (length input)) 0 input (omega arith) in
    (run.0, run.1)

InOrder-of :
    (input : Text) (tokens : List Token) (r : Result (List Token))
    → some r ≡ some (ok tokens)
    → TokensFrom 0 input r
    → InOrder 0 (byte_len input) tokens
InOrder-of input tokens (err e) h k = ground arith
InOrder-of input tokens (ok ts) h k = ground arith

-- The spans of the tokens that `lex` returns lie within the text, counted in bytes, are not empty,
-- and each begins where the one before it ends or later.
pub lex-InOrder :
    (parse_f64 : Text → Option ℕ) (input : Text) (tokens : List Token)
    → lex parse_f64 input ≡ some (ok tokens)
    → InOrder 0 (byte_len input) tokens
unfolding lex
lex-InOrder parse_f64 input tokens h =
    let run = lex_loop-TokensFrom parse_f64 (suc (length input)) 0 input (omega arith) in
    InOrder-of input tokens run.0 (sym run.1 ∙ h) run.2
