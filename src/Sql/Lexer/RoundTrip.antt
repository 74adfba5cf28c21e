-- ===== src/Sql/Lexer/RoundTrip.antt =====
-- crates/rnmdb-sql/src/lexer.rs: `lex` on texts printed from their pieces.
use rnov_modular_db.Base.{
  ℕ, zero, suc, ◌+◌, ◌≤◌, ◌<◌, ◌≡◌, refl, ap, Option, some, List, [], ◌∷◌, ◌++◌, map, arith, length,
  length-append, All,
}
use rnov_modular_db.Common.{Result, ok}
use rnov_modular_db.Sql.Token.{Text, Token, TokenKind}
use rnov_modular_db.Sql.Lexer.{emit, skip, lex_loop, lex}
use rnov_modular_db.Sql.Lexer.Lexeme.{Lexeme, first, others, kind_of, IsLexeme}
use rnov_modular_db.Sql.Lexer.Printed.{lex_round-ReadsAs}
use rnov_modular_db.Sql.Lexer.Spans.{lex_loop_ok}

-- the pieces with a space behind each
unfoldable pub print_all : List Lexeme → Text
unfolding others
print_all [] = []
print_all (x ∷ xs) = first x ∷ others x ++ b' ' ∷ print_all xs

-- the rounds of the loop on the printed pieces
rounds : List Lexeme → ℕ
rounds [] = 0
rounds (x ∷ xs) = 2 + rounds xs

rounds-le : (xs : List Lexeme) → rounds xs ≤ length (print_all xs)
unfolding rounds print_all
rounds-le [] = omega arith
rounds-le (x ∷ xs) = omega (arith, rounds-le xs, length-append (others x) (b' ' ∷ print_all xs))

no_fuel : (n : ℕ) → 2 + n < 1 → ⊥
no_fuel n h = omega arith

abbrev kinds : List Token → List TokenKind
kinds = map (λ t. t.kind)

abbrev LexesTo : List TokenKind → Option (Result (List Token)) → Type 0
LexesTo wanted r = (ts : List Token) × (r ≡ some (ok ts)) × (kinds ts ≡ wanted)

lex_loop-LexesTo :
    (parse_f64 : Text → Option ℕ) (fuel low : ℕ) (xs : List Lexeme)
    → All IsLexeme xs
    → rounds xs < fuel
    → LexesTo
        (map kind_of xs)
        (lex_loop parse_f64 fuel (record { position = low; rest = print_all xs }))
unfolding lex_loop rounds print_all
lex_loop-LexesTo parse_f64 zero low xs h k = elim k [ ]
lex_loop-LexesTo parse_f64 (suc fuel) low [] h k = ([], refl, refl)
lex_loop-LexesTo parse_f64 (suc zero) low (x ∷ xs) h k = elim (no_fuel (rounds xs) k) [ ]
lex_loop-LexesTo parse_f64 (suc (suc fuel)) low (x ∷ xs) h k =
    let piece = lex_round-ReadsAs parse_f64 low (print_all xs) x h.0 in
    let further = lex_loop-LexesTo parse_f64 fuel (piece.0 + 1) xs h.1 (omega (arith, k)) in
    let text = b' ' ∷ print_all xs in
    let space =
      lex_loop_ok parse_f64 fuel piece.0 b' ' (print_all xs) (skip (piece.0 + 1) (print_all xs))
        (ok further.0) refl further.1 in
    (
      _,
      lex_loop_ok parse_f64 (suc fuel) low (first x) (others x ++ text)
          (emit (kind_of x) low piece.0 text) (ok further.0) piece.1 space,
      ap (◌∷◌ (kind_of x)) further.2,
    )

-- Print any list of valid pieces with a space behind each (words, integers in the range of `i64`,
-- strings with their quotes doubled, operators that begin no comment, single bytes): `lex` then
-- returns exactly one token for each piece, in order and of the kind that the piece stands for.
pub lex-print_all :
    (parse_f64 : Text → Option ℕ) (xs : List Lexeme)
    → All IsLexeme xs
    → (ts : List Token) × (lex parse_f64 (print_all xs) ≡ some (ok ts))
      × (map (λ t. t.kind) ts ≡ map kind_of xs)
unfolding lex
lex-print_all parse_f64 xs h =
    lex_loop-LexesTo parse_f64 (suc (length (print_all xs))) 0 xs h (omega (arith, rounds-le xs))
