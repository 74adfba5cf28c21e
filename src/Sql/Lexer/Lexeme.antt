-- ===== src/Sql/Lexer/Lexeme.antt =====
-- crates/rnmdb-sql/src/lexer.rs: texts made of valid words, numbers, strings and operators, and
-- what the scanners read of them.
use rnov_modular_db.Base.{
  ℕ, ◌+◌, ◌≤◌, ◌≡◌, refl, ◌∙◌, ◌⊎◌, Bool, true, false, ◌&&◌, Option, some, [], ◌∷◌, ◌++◌, arith,
  inl, inr, All, ◌==◌, if◌then◌else◌,
}
use rnov_modular_db.Base.Int.{pos}
use rnov_modular_db.Sql.Token.{Text, TokenKind, integer, string, operator, word_kind}
use rnov_modular_db.Sql.Bytes.{
  byte_len, len_utf8, is_ascii_digit, is_identifier_start, is_identifier_continue, is_operator_byte,
  scan_while, digits_value,
}
use rnov_modular_db.Sql.Lexer.{starts_with, single_kind, pushed, string_body, max_i64}

-- A piece of a text, by its first character and the others.
pub data Lexeme : Type 0 where
  word : ℕ → Text → Lexeme
  number : ℕ → Text → Lexeme
  quoted : Text → Lexeme
  symbols : ℕ → Text → Lexeme
  single : ℕ → TokenKind → Lexeme

-- every quote of a string doubled
unfoldable pub double_quotes : Text → Text
double_quotes [] = []
double_quotes (c ∷ cs) =
    let more = double_quotes cs in if c == b'\'' then b'\'' ∷ b'\'' ∷ more else c ∷ more

abbrev pub first : Lexeme → ℕ
first (word c cs) = c
first (number c cs) = c
first (quoted value) = b'\''
first (symbols c cs) = c
first (single c kind) = c

unfoldable pub others : Lexeme → Text
unfolding double_quotes
others (word c cs) = cs
others (number c cs) = cs
others (quoted value) = double_quotes value ++ b'\'' ∷ []
others (symbols c cs) = cs
others (single c kind) = []

-- the token that the piece stands for
unfoldable pub kind_of : Lexeme → TokenKind
unfolding word_kind digits_value
kind_of (word c cs) = word_kind (c ∷ cs)
kind_of (number c cs) = integer (pos (digits_value 0 (c ∷ cs)))
kind_of (quoted value) = string value
kind_of (symbols c cs) = operator (c ∷ cs)
kind_of (single c kind) = kind

abbrev pub Passes : (ℕ → Bool) → Text → Type 0
Passes holds = All (λ c. holds c ≡ true)

-- What makes a piece one token: its characters are of its class, a number is in the range of
-- `i64`, and an operator does not begin a line comment.
unfoldable pub IsLexeme : Lexeme → Type 0
unfolding digits_value
IsLexeme (word c cs) = (is_identifier_start c ≡ true) × Passes is_identifier_continue cs
IsLexeme (number c cs) =
    (is_ascii_digit c ≡ true) × Passes is_ascii_digit cs × (digits_value 0 (c ∷ cs) ≤ max_i64)
IsLexeme (quoted value) = Unit
IsLexeme (symbols c cs) =
    (is_operator_byte c ≡ true)
    × Passes is_operator_byte cs
    × ((c == b'-' && starts_with b'-' cs) ≡ false)
IsLexeme (single c kind) = single_kind c ≡ some kind

pub scan_while-append :
    (holds : ℕ → Bool) (xs : Text) (d : ℕ) (rest : Text)
    → Passes holds xs
    → holds d ≡ false
    → scan_while holds (xs ++ d ∷ rest) ≡ (xs, d ∷ rest)
unfolding scan_while
scan_while-append holds [] d rest h k = rw k refl
scan_while-append holds (x ∷ xs) d rest h k = rw (h.0, scan_while-append holds xs d rest h.1 k) refl

string_body_other :
    (c : ℕ) (cs : Text)
    → (c == b'\'') ≡ false
    → string_body (c ∷ cs) ≡ pushed c (len_utf8 c) (string_body cs)
unfolding string_body
string_body_other c [] h = rw h refl
string_body_other c (d ∷ ds) h = rw (h, string_body) refl

-- One step of the reading back: `written` is what stands for `c`.
double_quotes_step :
    (c : ℕ) (value : Text)
    → ((double_quotes (c ∷ value) ≡ b'\'' ∷ b'\'' ∷ double_quotes value) × (c ≡ b'\''))
      ⊎ ((double_quotes (c ∷ value) ≡ c ∷ double_quotes value) × ((c == b'\'') ≡ false))
unfolding double_quotes
double_quotes_step c value = ground arith

pushed_eq :
    (c size more total : ℕ) (value rest : Text) (o : Option (Text × ℕ × Text))
    → o ≡ some (value, more, rest)
    → size + more ≡ total
    → pushed c size o ≡ some (c ∷ value, total, rest)
pushed_eq c size more total value rest o h k = rw (h, k) refl

-- The body of a string literal: reading it behind the opening quote undoes the doubling of the
-- quotes, whatever character but a quote stands behind it.
pub string_body-double_quotes :
    (value : Text) (d : ℕ) (rest : Text)
    → (d == b'\'') ≡ false
    → string_body (double_quotes value ++ b'\'' ∷ d ∷ rest)
      ≡ some (value, byte_len (double_quotes value) + 1, d ∷ rest)
unfolding string_body double_quotes
string_body-double_quotes [] d rest h = rw (h, string_body, double_quotes, ◌++◌) refl
string_body-double_quotes (c ∷ cs) d rest h =
    let ih = string_body-double_quotes cs d rest h in
    let more = byte_len (double_quotes cs) + 1 in
    elim (double_quotes_step c cs) [
      | inl (w, q) ↦ rw w (rw q (pushed_eq b'\'' 2 more _ cs (d ∷ rest) _ ih (omega arith)))
      | inr (w, q) ↦ rw w (
          string_body_other c _ q
          ∙ pushed_eq c (len_utf8 c) more _ cs (d ∷ rest) _ ih (omega arith))
    ]
