-- ===== src/Sql/Lexer.antt =====
-- crates/rnmdb-sql/src/lexer.rs: `Lexer`, with the text not yet read in place of the whole input,
-- so that `peek_byte` is the head of `rest`.
pub mod Reads
pub mod Rounds
pub mod Spans
pub mod Lexeme
pub mod Printed
pub mod RoundTrip
use rnov_modular_db.Base.{
  ℕ, zero, suc, ◌+◌, ◌-◌, ◌^◌, Bool, true, false, ◌&&◌, Option, none, some, List, [], ◌∷◌, ◌++◌,
  if◌then◌else◌, ltb, ◌==◌, length,
}
use rnov_modular_db.Base.Int.{pos}
use rnov_modular_db.Common.{Result, ok, err, invalid_input, ◌>>=◌}
use rnov_modular_db.Types.Float64.{float64_new}
use rnov_modular_db.Sql.Bytes.{
  len_utf8, is_ascii_digit, is_identifier_start, is_identifier_continue, is_operator_byte, is_space,
  scan_while, digits_value,
}
use rnov_modular_db.Sql.Token.{
  Text, TokenKind, integer, float64, string, operator, comma, dot, semicolon, star, left_paren,
  right_paren, left_bracket, right_bracket, word_kind, Token,
}

pub record Lexer : Type 0 where
  pub position : ℕ
  pub rest : Text

abbrev pub token_new : TokenKind → ℕ → ℕ → Token
token_new kind start end = record { kind = kind; span = record { start = start; end = end } }

-- `peek_next_byte() == Some(byte)`, on the text behind the current byte
abbrev pub starts_with : ℕ → Text → Bool
starts_with byte [] = false
starts_with byte (c ∷ cs) = c == byte

-- The tokens of one round of the loop, none or one, and the lexer after it.
abbrev pub Round : Type 0
Round = List Token × Lexer

-- a token of the kind from `start` to the position of the lexer
abbrev pub emit : TokenKind → ℕ → ℕ → Text → Round
emit kind start end rest = (token_new kind start end ∷ [], record { position = end; rest = rest })

abbrev pub skip : ℕ → Text → Round
skip position rest = ([], record { position = position; rest = rest })

-- the arms of `lex` that call `take_single`
abbrev pub single_kind : ℕ → Option TokenKind
single_kind c =
    if c == b','
    then some comma
    else if c == b'.'
    then some dot
    else if c == b';'
    then some semicolon
    else if c == b'*'
    then some star
    else if c == b'('
    then some left_paren
    else if c == b')'
    then some right_paren
    else if c == b'['
    then some left_bracket
    else if c == b']'
    then some right_bracket
    else none

abbrev pub take_single : TokenKind → ℕ → Text → Round
take_single kind start cs = emit kind start (start + 1) cs

abbrev pub lex_identifier_or_keyword : ℕ → ℕ → Text → Round
lex_identifier_or_keyword start c cs =
    let read = scan_while is_identifier_continue cs in
    emit (word_kind (c ∷ read.0)) start (start + (1 + length read.0)) read.1

-- `i64::MAX`
abbrev pub max_i64 : ℕ
max_i64 = 2 ^ 63 - 1

-- `integer_token`; `str::parse::<i64>` refuses digits with a value above `i64::MAX`
unfoldable pub integer_token : Text → ℕ → Text → Result Round
unfolding digits_value
integer_token raw start rest =
    let value = digits_value 0 raw in
    if ltb max_i64 value
    then err invalid_input
    else ok (emit (integer (pos value)) start (start + length raw) rest)

-- `value.push(c)` and a step of `size` bytes, before what the rest of the loop does
abbrev pub pushed : ℕ → ℕ → Option (Text × ℕ × Text) → Option (Text × ℕ × Text)
pushed c size none = none
pushed c size (some (value, more, rest)) = some (c ∷ value, size + more, rest)

-- `lex_string` behind the opening quote: the value, the bytes read and the rest
unfoldable pub string_body : Text → Option (Text × ℕ × Text)
string_body [] = none
string_body (c ∷ []) = if c == b'\'' then some ([], 1, []) else none
string_body (c ∷ d ∷ ds) = elim (c == b'\'') [
  | true ↦ (elim (d == b'\'') [
    | true ↦ pushed b'\'' 2 (string_body ds)
    | false ↦ some ([], 1, d ∷ ds)
  ])
  | false ↦ pushed c (len_utf8 c) (string_body (d ∷ ds))
]

unfoldable pub lex_string : ℕ → Text → Result Round
unfolding string_body
lex_string start cs = elim (string_body cs) [
  | none ↦ err invalid_input
  | some (value, size, rest) ↦ ok (emit (string value) start (start + (1 + size)) rest)
]

unfoldable pub lex_operator : ℕ → Text → Round
unfolding scan_while
lex_operator start cs =
    let read = scan_while is_operator_byte cs in
    emit (operator read.0) start (start + length read.0) read.1

-- `skip_line_comment`: the bytes read and the rest
unfoldable pub skip_line_comment : Text → ℕ × Text
skip_line_comment [] = (0, [])
skip_line_comment (c ∷ cs) =
    let more = skip_line_comment cs in if c == b'\n' then (1, cs) else (len_utf8 c + more.0, more.1)

-- `usize::MAX`
abbrev pub max_usize : ℕ
max_usize = 2 ^ 64 - 1

abbrev pub passed : ℕ → Option (ℕ × Text) → Option (ℕ × Text)
passed size none = none
passed size (some (more, rest)) = some (size + more, rest)

-- the loop of `skip_block_comment`: the bytes read and the rest
unfoldable pub block_comment_body : ℕ → Text → Option (ℕ × Text)
block_comment_body depth [] = none
block_comment_body depth (c ∷ []) = none
block_comment_body depth (c ∷ d ∷ ds) = elim (c == b'/' && d == b'*') [
  | true ↦ (elim (depth == max_usize) [
    | true ↦ none
    | false ↦ passed 2 (block_comment_body (depth + 1) ds)
  ])
  | false ↦ (elim (c == b'*' && d == b'/') [
    | true ↦ (elim (depth - 1 == 0) [
      | true ↦ some (2, ds)
      | false ↦ passed 2 (block_comment_body (depth - 1) ds)
    ])
    | false ↦ passed (len_utf8 c) (block_comment_body depth (d ∷ ds))
  ])
]

-- `skip_block_comment`, on the text behind `/*`
unfoldable pub skip_block_comment : ℕ → Text → Result Round
unfolding block_comment_body
skip_block_comment start cs = elim (block_comment_body 1 cs) [
  | none ↦ err invalid_input
  | some (size, rest) ↦ ok (skip (start + (2 + size)) rest)
]

abbrev pub tail : Text → Text
tail [] = []
tail (c ∷ cs) = cs

-- `should_lex_fraction`
abbrev pub should_lex_fraction : Text → Bool
should_lex_fraction [] = false
should_lex_fraction (c ∷ []) = false
should_lex_fraction (c ∷ d ∷ ds) = c == b'.' && is_ascii_digit d

-- `parse_f64` is `str::parse::<f64>`, none for its error.
module _ (parse_f64 : Text → Option ℕ) where
  unfoldable pub float_token : Text → ℕ → Text → Result Round
  float_token raw start rest = elim (parse_f64 raw) [
    | none ↦ err invalid_input
    | some parsed ↦ do
      value ← float64_new parsed
      ok (emit (float64 value) start (start + length raw) rest)
  ]

  unfoldable pub lex_number : ℕ → Text → Result Round
  unfolding float_token integer_token scan_while digits_value
  lex_number start cs =
      let whole = scan_while is_ascii_digit cs in
      let fraction = scan_while is_ascii_digit (tail whole.1) in
      if should_lex_fraction whole.1
      then float_token (whole.0 ++ b'.' ∷ fraction.0) start fraction.1
      else integer_token whole.0 start whole.1

  -- the arms of `lex` behind those for spaces and single bytes
  unfoldable pub lex_other : ℕ → ℕ → Text → Result Round
  unfolding lex_string lex_operator lex_number skip_line_comment skip_block_comment word_kind
  lex_other start c cs =
      let comment = skip_line_comment (c ∷ cs) in
      if c == b'\''
      then lex_string start cs
      else if is_ascii_digit c
      then lex_number start (c ∷ cs)
      else if c == b'-' && starts_with b'-' cs
      then ok (skip (start + comment.0) comment.1)
      else if c == b'/' && starts_with b'*' cs
      then skip_block_comment start (tail cs)
      else if is_identifier_start c
      then ok (lex_identifier_or_keyword start c cs)
      else if is_operator_byte c
      then ok (lex_operator start (c ∷ cs))
      else err invalid_input

  -- One round of the loop of `lex`, at the byte `c`.
  unfoldable pub lex_round : ℕ → ℕ → Text → Result Round
  unfolding lex_other
  lex_round start c cs = if is_space c then ok (skip (start + 1) cs) else elim (single_kind c) [
    | some kind ↦ ok (take_single kind start cs)
    | none ↦ lex_other start c cs
  ]

  -- `while let Some(byte) = self.peek_byte()`, none when the fuel runs out
  unfoldable pub lex_loop : ℕ → Lexer → Option (Result (List Token))
  unfolding lex_round
  lex_loop zero lexer = none
  lex_loop (suc fuel) lexer = elim lexer.rest [
    | [] ↦ some (ok [])
    | c ∷ cs ↦ elim (lex_round lexer.position c cs) [
      | err e ↦ some (err e)
      | ok (tokens, after) ↦ elim (lex_loop fuel after) [
        | none ↦ none
        | some result ↦ some (do more ← result; ok (tokens ++ more))
      ]
    ]
  ]

  -- `lex`; every round reads at least one character.
  unfoldable pub lex : Text → Option (Result (List Token))
  unfolding lex_loop
  lex input = lex_loop (suc (length input)) (record { position = 0; rest = input })
