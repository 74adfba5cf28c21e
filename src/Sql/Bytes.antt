-- ===== src/Sql/Bytes.antt =====
-- crates/rnmdb-sql/src/lexer.rs: the classes of bytes and the scanning of a text.
-- A text is read by code points. A byte test of the source compares with ASCII characters, and no
-- byte of a longer character is one, so it gives what the same test gives on the code point.
use rnov_modular_db.Base.{
  ℕ, ◌+◌, ◌-◌, ◌*◌, Bool, ◌&&◌, ◌||◌, [], ◌∷◌, if◌then◌else◌, ltb, leb, ◌==◌,
}
use rnov_modular_db.Sql.Token.{Text}

-- `char::len_utf8`
abbrev pub len_utf8 : ℕ → ℕ
len_utf8 c = if ltb c 128 then 1 else if ltb c 2048 then 2 else if ltb c 65536 then 3 else 4

-- `str::len`
abbrev pub byte_len : Text → ℕ
byte_len [] = 0
byte_len (c ∷ cs) = len_utf8 c + byte_len cs

abbrev pub is_between : ℕ → ℕ → ℕ → Bool
is_between low high c = leb low c && leb c high

abbrev pub is_ascii_digit : ℕ → Bool
is_ascii_digit = is_between b'0' b'9'

abbrev pub is_ascii_alphabetic : ℕ → Bool
is_ascii_alphabetic c = is_between b'a' b'z' c || is_between b'A' b'Z' c

abbrev pub is_ascii_alphanumeric : ℕ → Bool
is_ascii_alphanumeric c = is_ascii_alphabetic c || is_ascii_digit c

abbrev pub is_identifier_start : ℕ → Bool
is_identifier_start c = c == b'_' || is_ascii_alphabetic c

abbrev pub is_identifier_continue : ℕ → Bool
is_identifier_continue c = c == b'_' || c == b'$' || is_ascii_alphanumeric c

abbrev pub is_operator_byte : ℕ → Bool
is_operator_byte c =
    c == b'='
    || c == b'<'
    || c == b'>'
    || c == b'!'
    || c == b'+'
    || c == b'-'
    || c == b'/'
    || c == b'%'
    || c == b'@'
    || c == b'|'
    || c == b'&'
    || c == b'~'
    || c == b'#'
    || c == b'?'

-- the white space that the loop skips
abbrev pub is_space : ℕ → Bool
is_space c = c == b' ' || c == b'\t' || c == b'\r' || c == b'\n'

-- `while self.peek_byte().is_some_and(holds) { self.position += 1 }`: what is read, and the rest
unfoldable pub scan_while : (ℕ → Bool) → Text → Text × Text
scan_while holds [] = ([], [])
scan_while holds (c ∷ cs) =
    let more = scan_while holds cs in if holds c then (c ∷ more.0, more.1) else ([], c ∷ cs)

-- the value of decimal digits
unfoldable pub digits_value : ℕ → Text → ℕ
digits_value value [] = value
digits_value value (c ∷ cs) = digits_value (10 * value + (c - b'0')) cs
