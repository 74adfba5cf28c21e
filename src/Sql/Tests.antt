-- ===== src/Sql/Tests.antt =====
-- Runs of the lexer, and uses of its theorems.
use rnov_modular_db.Base.{ℕ, ◌≡◌, refl, Option, none, some, List, [], ◌∷◌, map, All, arith}
use rnov_modular_db.Common.{Result, ok, err, invalid_input}
use rnov_modular_db.Sql.Token.{Text, text, Token, select, identifier, comma, string, star}
use rnov_modular_db.Sql.Bytes.{byte_len}
use rnov_modular_db.Sql.Lexer.{token_new, lex}
use rnov_modular_db.Sql.Lexer.Rounds.{InOrder}
use rnov_modular_db.Sql.Lexer.Spans.{lex_terminates, lex-InOrder}
use rnov_modular_db.Sql.Lexer.Lexeme.{
  Lexeme, word, number, quoted, symbols, single, kind_of, IsLexeme,
}
use rnov_modular_db.Sql.Lexer.RoundTrip.{print_all, lex-print_all}

-- no text is a float here
abbrev no_float : Text → Option ℕ
no_float raw = none

abbrev query : Text
query = text "SELECT a1, 'it''s' -- end"

abbrev query_tokens : List Token
query_tokens =
    token_new select 0 6
    ∷ token_new (identifier (text "a1")) 7 9
    ∷ token_new comma 9 10
    ∷ token_new (string (text "it's")) 11 18
    ∷ []

lex-query : lex no_float query ≡ some (ok query_tokens)
unfolding lex
lex-query = refl

-- A block comment ends at the end of the outermost one, and has to end.
lex_comment : lex no_float (text "/* a /* b */ */ ,") ≡ some (ok (token_new comma 16 17 ∷ []))
unfolding lex
lex_comment = refl

lex_unterminated : lex no_float (text "/* a /* b */") ≡ some (err invalid_input)
unfolding lex
lex_unterminated = refl

lex_too_large : lex no_float (text "9223372036854775808") ≡ some (err invalid_input)
unfolding lex
lex_too_large = refl

lex_terminates_example : (r : Result (List Token)) × (lex no_float query ≡ some r)
lex_terminates_example = lex_terminates no_float query

lex-InOrder_example : InOrder 0 (byte_len query) query_tokens
lex-InOrder_example = lex-InOrder no_float query query_tokens lex-query

abbrev pieces : List Lexeme
pieces =
    word b'S' (text "elect")
    ∷ number b'4' (text "2")
    ∷ symbols b'<' (text "=")
    ∷ quoted (text "it's")
    ∷ single b'*' star
    ∷ []

pieces-IsLexeme : All IsLexeme pieces
unfolding IsLexeme
pieces-IsLexeme = (
  (refl, (refl, (refl, (refl, (refl, (refl, tt)))))),
  ((refl, (refl, tt), omega arith), ((refl, (refl, tt), refl), (tt, (refl, tt)))),
)

lex-print_all_example :
    (ts : List Token) × (lex no_float (print_all pieces) ≡ some (ok ts))
    × (map (λ t. t.kind) ts ≡ map kind_of pieces)
lex-print_all_example = lex-print_all no_float pieces pieces-IsLexeme
