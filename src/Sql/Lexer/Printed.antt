-- ===== src/Sql/Lexer/Printed.antt =====
-- crates/rnmdb-sql/src/lexer.rs: the round of the loop that reads a word, a number, a string, an
-- operator or a single byte.
use rnov_modular_db.Base.{
  ℕ, ◌+◌, ◌≤◌, ◌≡◌, refl, ◌∙◌, true, false, ◌&&◌, Option, none, some, [], ◌∷◌, ◌++◌, arith, length,
  ◌==◌, ltb,
}
use mathlib.Core.List.{append_assoc}
use rnov_modular_db.Base.Int.{pos}
use rnov_modular_db.Common.{Result, ok}
use rnov_modular_db.Sql.Token.{Text, TokenKind, integer, string, operator, word_kind}
use rnov_modular_db.Sql.Bytes.{
  byte_len, is_ascii_digit, is_identifier_start, is_identifier_continue, is_operator_byte, is_space,
  digits_value,
}
use rnov_modular_db.Sql.Lexer.Lexeme.{
  Lexeme, word, number, quoted, symbols, single, double_quotes, first, others, kind_of, Passes,
  IsLexeme, scan_while-append, string_body-double_quotes,
}
use rnov_modular_db.Sql.Lexer.{
  Round, emit, starts_with, single_kind, lex_string, lex_operator, integer_token, max_i64,
  lex_number, should_lex_fraction, lex_identifier_or_keyword, lex_other, lex_round,
}

ltb-false : (a b : ℕ) → b ≤ a → ltb a b ≡ false
ltb-false a b h = ground arith

no_fraction : (rest : Text) → should_lex_fraction (b' ' ∷ rest) ≡ false
no_fraction [] = refl
no_fraction (c ∷ cs) = refl

-- What the round on a piece and the space behind it gives: one token of the piece's kind.
abbrev pub ReadsAs : TokenKind → ℕ → Text → Result Round → Type 0
ReadsAs kind start rest r = (end : ℕ) × (r ≡ ok (emit kind start end (b' ' ∷ rest)))

word_tests :
    (c : ℕ) (cs : Text)
    → is_identifier_start c ≡ true
    → (is_space c ≡ false)
      × (single_kind c ≡ none)
      × ((c == b'\'') ≡ false)
      × (is_ascii_digit c ≡ false)
      × ((c == b'-' && starts_with b'-' cs) ≡ false)
      × ((c == b'/' && starts_with b'*' cs) ≡ false)
word_tests c cs h = ground arith

digit_tests :
    (c : ℕ)
    → is_ascii_digit c ≡ true
    → (is_space c ≡ false) × (single_kind c ≡ none) × ((c == b'\'') ≡ false)
digit_tests c h = ground arith

operator_tests :
    (c : ℕ)
    → is_operator_byte c ≡ true
    → (is_space c ≡ false)
      × (single_kind c ≡ none)
      × ((c == b'\'') ≡ false)
      × (is_ascii_digit c ≡ false)
      × (is_identifier_start c ≡ false)
operator_tests c h = ground arith

single_not_space : (c : ℕ) (kind : TokenKind) → single_kind c ≡ some kind → is_space c ≡ false
single_not_space c kind h = ground arith

-- Behind an operator that is one token no comment begins.
no_comment :
    (c : ℕ) (cs rest : Text)
    → Passes is_operator_byte cs
    → (c == b'-' && starts_with b'-' cs) ≡ false
    → ((c == b'-' && starts_with b'-' (cs ++ b' ' ∷ rest)) ≡ false)
      × ((c == b'/' && starts_with b'*' (cs ++ b' ' ∷ rest)) ≡ false)
no_comment c [] rest h k = ground arith
no_comment c (d ∷ ds) rest h k = ground (arith, h.0)

module _ (parse_f64 : Text → Option ℕ) (start : ℕ) (rest : Text) where
  lex_string-ReadsAs :
      (value : Text)
      → ReadsAs
          (string value)
          start
          rest
          (lex_string start (double_quotes value ++ b'\'' ∷ b' ' ∷ rest))
  unfolding lex_string
  lex_string-ReadsAs value = (
    start + (1 + (byte_len (double_quotes value) + 1)),
    rw (string_body-double_quotes value b' ' rest refl, lex_string) refl,
  )

  integer_token-ReadsAs :
      (cs : Text)
      → digits_value 0 cs ≤ max_i64
      → ReadsAs
          (integer (pos (digits_value 0 cs)))
          start
          rest
          (integer_token cs start (b' ' ∷ rest))
  unfolding integer_token
  integer_token-ReadsAs cs h =
      (start + length cs, rw (ltb-false max_i64 (digits_value 0 cs) h, integer_token) refl)

  lex_number-ReadsAs :
      (c : ℕ) (cs : Text)
      → Passes is_ascii_digit (c ∷ cs)
      → digits_value 0 (c ∷ cs) ≤ max_i64
      → ReadsAs
          (integer (pos (digits_value 0 (c ∷ cs))))
          start
          rest
          (lex_number parse_f64 start (c ∷ cs ++ b' ' ∷ rest))
  unfolding lex_number integer_token
  lex_number-ReadsAs c cs h k =
      rw (scan_while-append is_ascii_digit (c ∷ cs) b' ' rest h refl, lex_number)
        (rw (no_fraction rest, lex_number) (integer_token-ReadsAs (c ∷ cs) k))

  lex_operator-ReadsAs :
      (c : ℕ) (cs : Text)
      → Passes is_operator_byte (c ∷ cs)
      → ReadsAs (operator (c ∷ cs)) start rest (ok (lex_operator start (c ∷ cs ++ b' ' ∷ rest)))
  unfolding lex_operator
  lex_operator-ReadsAs c cs h = (
    start + length (c ∷ cs),
    rw (scan_while-append is_operator_byte (c ∷ cs) b' ' rest h refl, lex_operator) refl,
  )

  lex_identifier-ReadsAs :
      (c : ℕ) (cs : Text)
      → Passes is_identifier_continue cs
      → ReadsAs
          (word_kind (c ∷ cs))
          start
          rest
          (ok (lex_identifier_or_keyword start c (cs ++ b' ' ∷ rest)))
  lex_identifier-ReadsAs c cs h = (
    start + (1 + length cs),
    rw (scan_while-append is_identifier_continue cs b' ' rest h refl, lex_identifier_or_keyword)
        refl,
  )

  lex_round_other :
      (c : ℕ) (cs : Text)
      → is_space c ≡ false
      → single_kind c ≡ none
      → lex_round parse_f64 start c cs ≡ lex_other parse_f64 start c cs
  unfolding lex_round
  lex_round_other c cs h k = rw (h, k, lex_round) refl

  word-ReadsAs :
      (c : ℕ) (cs : Text)
      → is_identifier_start c ≡ true
      → Passes is_identifier_continue cs
      → ReadsAs (word_kind (c ∷ cs)) start rest (lex_round parse_f64 start c (cs ++ b' ' ∷ rest))
  unfolding lex_other
  word-ReadsAs c cs h k =
      let t = word_tests c (cs ++ b' ' ∷ rest) h in
      rw (lex_round_other c (cs ++ b' ' ∷ rest) t.0 t.1)
        (rw (t.2, t.3, t.4, t.5, h, lex_other) (lex_identifier-ReadsAs c cs k))

  lex_round_digit :
      (c : ℕ) (cs : Text)
      → is_ascii_digit c ≡ true
      → lex_round parse_f64 start c cs ≡ lex_number parse_f64 start (c ∷ cs)
  unfolding lex_other
  lex_round_digit c cs h =
      let t = digit_tests c h in lex_round_other c cs t.0 t.1 ∙ rw (t.2, h, lex_other) refl

  lex_round_operator :
      (c : ℕ) (cs : Text)
      → is_operator_byte c ≡ true
      → (c == b'-' && starts_with b'-' cs) ≡ false
      → (c == b'/' && starts_with b'*' cs) ≡ false
      → lex_round parse_f64 start c cs ≡ ok (lex_operator start (c ∷ cs))
  unfolding lex_other
  lex_round_operator c cs h m n =
      let t = operator_tests c h in
      lex_round_other c cs t.0 t.1 ∙ rw (t.2, t.3, m, n, t.4, h, lex_other) refl

  number-ReadsAs :
      (c : ℕ) (cs : Text)
      → Passes is_ascii_digit (c ∷ cs)
      → digits_value 0 (c ∷ cs) ≤ max_i64
      → ReadsAs
          (integer (pos (digits_value 0 (c ∷ cs))))
          start
          rest
          (lex_round parse_f64 start c (cs ++ b' ' ∷ rest))
  number-ReadsAs c cs h k =
      rw (lex_round_digit c (cs ++ b' ' ∷ rest) h.0) (lex_number-ReadsAs c cs h k)

  symbols-ReadsAs :
      (c : ℕ) (cs : Text)
      → Passes is_operator_byte (c ∷ cs)
      → (c == b'-' && starts_with b'-' cs) ≡ false
      → ReadsAs (operator (c ∷ cs)) start rest (lex_round parse_f64 start c (cs ++ b' ' ∷ rest))
  symbols-ReadsAs c cs h k =
      let n = no_comment c cs rest h.1 k in
      rw (lex_round_operator c (cs ++ b' ' ∷ rest) h.0 n.0 n.1) (lex_operator-ReadsAs c cs h)

  quoted-ReadsAs :
      (value : Text)
      → ReadsAs
          (string value)
          start
          rest
          (lex_round parse_f64 start b'\'' (double_quotes value ++ b'\'' ∷ b' ' ∷ rest))
  unfolding lex_other
  quoted-ReadsAs value =
      rw (lex_round_other b'\'' (double_quotes value ++ b'\'' ∷ b' ' ∷ rest) refl refl)
        (lex_string-ReadsAs value)

  single-ReadsAs :
      (c : ℕ) (kind : TokenKind)
      → single_kind c ≡ some kind
      → ReadsAs kind start rest (lex_round parse_f64 start c (b' ' ∷ rest))
  unfolding lex_round
  single-ReadsAs c kind h = (start + 1, rw (single_not_space c kind h, h, lex_round) refl)

  -- A piece with a space behind it is read in one round, as the token that it stands for.
  pub lex_round-ReadsAs :
      (x : Lexeme)
      → IsLexeme x
      → ReadsAs
          (kind_of x)
          start
          rest
          (lex_round parse_f64 start (first x) (others x ++ b' ' ∷ rest))
  unfolding kind_of IsLexeme others
  lex_round-ReadsAs (word c cs) h = word-ReadsAs c cs h.0 h.1
  lex_round-ReadsAs (number c cs) h = number-ReadsAs c cs (h.0, h.1) h.2
  lex_round-ReadsAs (quoted value) h =
      rw (append_assoc (double_quotes value) (b'\'' ∷ []) (b' ' ∷ rest)) (quoted-ReadsAs value)
  lex_round-ReadsAs (symbols c cs) h = symbols-ReadsAs c cs (h.0, h.1) h.2
  lex_round-ReadsAs (single c kind) h = single-ReadsAs c kind h
