-- ===== src/Sql/Lexer/Reads.antt =====
-- crates/rnmdb-sql/src/lexer.rs: what the parts of the lexer read, in characters and in bytes.
use rnov_modular_db.Base.{
  ℕ, ◌+◌, ◌-◌, ◌≤◌, ◌≡◌, Bool, true, Option, none, some, [], ◌∷◌, arith, inl, inr, Bool-cases,
  length,
}
use rnov_modular_db.Sql.Token.{Text}
use rnov_modular_db.Sql.Bytes.{
  len_utf8, byte_len, is_ascii_digit, is_identifier_start, is_identifier_continue, is_operator_byte,
  scan_while,
}
use rnov_modular_db.Sql.Lexer.{pushed, passed, string_body, skip_line_comment, block_comment_body}

pub len_utf8_pos : (c : ℕ) → 1 ≤ len_utf8 c
len_utf8_pos c = ground arith

-- `size` bytes read from `cs` leave `rest`, which is no longer.
abbrev pub Reads : Text → ℕ → Text → Type 0
Reads cs size rest = (size + byte_len rest ≡ byte_len cs) × (length rest ≤ length cs)

-- The tested characters are bytes.
abbrev pub IsAscii : (ℕ → Bool) → Type 0
IsAscii holds = (c : ℕ) → holds c ≡ true → len_utf8 c ≡ 1

pub digit-IsAscii : IsAscii is_ascii_digit
digit-IsAscii c h = ground arith

pub continue-IsAscii : IsAscii is_identifier_continue
continue-IsAscii c h = ground arith

pub operator-IsAscii : IsAscii is_operator_byte
operator-IsAscii c h = ground arith

pub start-IsAscii : IsAscii is_identifier_start
start-IsAscii c h = ground arith

pub scan_while-Reads :
    (holds : ℕ → Bool)
    → IsAscii holds
    → (cs : Text) → Reads cs (length (scan_while holds cs).0) (scan_while holds cs).1
unfolding scan_while
scan_while-Reads holds ascii [] = ground arith
scan_while-Reads holds ascii (c ∷ cs) = elim (Bool-cases (holds c)) [
  | inl yes_c ↦ ground (arith, scan_while-Reads holds ascii cs, ascii c yes_c)
  | inr no_c ↦ ground arith
]

abbrev pub StringReads : Text → Option (Text × ℕ × Text) → Type 0
StringReads cs none = Unit
StringReads cs (some (value, size, rest)) = Reads cs size rest

StringReads-pushed :
    (c size : ℕ) (cs ds : Text) (o : Option (Text × ℕ × Text))
    → byte_len ds ≡ size + byte_len cs
    → length cs ≤ length ds
    → StringReads cs o
    → StringReads ds (pushed c size o)
StringReads-pushed c size cs ds none b l r = tt
StringReads-pushed c size cs ds (some x) b l r = ground arith

pub string_body-StringReads : (cs : Text) → StringReads cs (string_body cs)
unfolding string_body
string_body-StringReads [] = tt
string_body-StringReads (c ∷ []) = ground arith
string_body-StringReads (c ∷ d ∷ ds) = ground (
  arith,
  StringReads-pushed b'\'' 2 ds (c ∷ d ∷ ds) (string_body ds),
  StringReads-pushed c (len_utf8 c) (d ∷ ds) (c ∷ d ∷ ds) (string_body (d ∷ ds)),
  string_body-StringReads ds,
  string_body-StringReads (d ∷ ds),
)

abbrev pub CommentReads : Text → Option (ℕ × Text) → Type 0
CommentReads cs none = Unit
CommentReads cs (some (size, rest)) = Reads cs size rest

CommentReads-passed :
    (size : ℕ) (cs ds : Text) (o : Option (ℕ × Text))
    → byte_len ds ≡ size + byte_len cs
    → length cs ≤ length ds
    → CommentReads cs o
    → CommentReads ds (passed size o)
CommentReads-passed size cs ds none b l r = tt
CommentReads-passed size cs ds (some x) b l r = ground arith

pub skip_line_comment-Reads :
    (cs : Text) → Reads cs (skip_line_comment cs).0 (skip_line_comment cs).1
unfolding skip_line_comment
skip_line_comment-Reads [] = ground arith
skip_line_comment-Reads (c ∷ cs) = ground (arith, skip_line_comment-Reads cs)

pub block_comment_body-CommentReads :
    (depth : ℕ) (cs : Text) → CommentReads cs (block_comment_body depth cs)
unfolding block_comment_body
block_comment_body-CommentReads depth [] = tt
block_comment_body-CommentReads depth (c ∷ []) = tt
block_comment_body-CommentReads depth (c ∷ d ∷ ds) = ground (
  arith,
  CommentReads-passed 2 ds (c ∷ d ∷ ds) (block_comment_body (depth + 1) ds),
  CommentReads-passed 2 ds (c ∷ d ∷ ds) (block_comment_body (depth - 1) ds),
  CommentReads-passed (len_utf8 c) (d ∷ ds) (c ∷ d ∷ ds) (block_comment_body depth (d ∷ ds)),
  block_comment_body-CommentReads (depth + 1) ds,
  block_comment_body-CommentReads (depth - 1) ds,
  block_comment_body-CommentReads depth (d ∷ ds),
)
