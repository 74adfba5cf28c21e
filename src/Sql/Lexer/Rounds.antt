-- ===== src/Sql/Lexer/Rounds.antt =====
-- crates/rnmdb-sql/src/lexer.rs: what a round of the loop reads, and the span of its token.
use rnov_modular_db.Base.{
  ◌==◌, ◌&&◌, if◌then◌else◌, ℕ, ◌+◌, ◌≤◌, ◌<◌, ◌≡◌, refl, Bool, true, false, Option, some, List, [],
  ◌∷◌, ◌++◌, arith, inl, inr, Bool-cases, Option-cases, length, length-append,
}
use rnov_modular_db.Common.{Result, ok, err, invalid_input, Result-cases}
use rnov_modular_db.Types.Float64.{float64_new}
use rnov_modular_db.Sql.Token.{Text, Token, TokenKind, float64}
use rnov_modular_db.Sql.Bytes.{
  byte_len, len_utf8, is_space, is_ascii_digit, is_identifier_start, is_identifier_continue,
  is_operator_byte, scan_while,
}
use rnov_modular_db.Sql.Lexer.{
  Round, emit, single_kind, string_body, lex_string, lex_operator, float_token, integer_token,
  lex_number, skip_line_comment, block_comment_body, skip_block_comment, tail, should_lex_fraction,
  skip, starts_with, lex_identifier_or_keyword, lex_other, lex_round,
}
use rnov_modular_db.Sql.Lexer.Reads.{
  IsAscii, Reads, scan_while-Reads, digit-IsAscii, continue-IsAscii, operator-IsAscii,
  start-IsAscii, string_body-StringReads, skip_line_comment-Reads, block_comment_body-CommentReads,
}

-- The tokens stand one behind the other between the positions, and none is empty.
abbrev pub InOrder : ℕ → ℕ → List Token → Type 0
InOrder low high [] = low ≤ high
InOrder low high (t ∷ ts) =
    (low ≤ t.span.start) × (t.span.start < t.span.end) × InOrder t.span.end high ts

pub InOrder-weaken :
    (low middle high : ℕ) (ts : List Token)
    → low ≤ middle
    → InOrder middle high ts
    → InOrder low high ts
InOrder-weaken low middle high [] h k = omega arith
InOrder-weaken low middle high (t ∷ ts) h k = (omega arith, k.1, k.2)

pub InOrder-append :
    (low middle high : ℕ) (ts us : List Token)
    → InOrder low middle ts
    → InOrder middle high us
    → InOrder low high (ts ++ us)
InOrder-append low middle high [] us h k = InOrder-weaken low middle high us h k
InOrder-append low middle high (t ∷ ts) us h k =
    (h.0, h.1, InOrder-append t.span.end middle high ts us h.2 k)

-- A round from `start` on the text `cs` reads something, and its token spans what was read.
unfoldable pub RoundReads : ℕ → Text → Result Round → Type 0
RoundReads start cs (err e) = Unit
RoundReads start cs (ok (ts, lexer)) =
    (lexer.position + byte_len lexer.rest ≡ start + byte_len cs)
    × (length lexer.rest < length cs)
    × InOrder start lexer.position ts

emit-RoundReads :
    (kind : TokenKind) (start size : ℕ) (rest cs : Text)
    → size + byte_len rest ≡ byte_len cs
    → length rest < length cs
    → 0 < size
    → RoundReads start cs (ok (emit kind start (start + size) rest))
unfolding RoundReads
emit-RoundReads kind start size rest cs b l p = ground arith

lex_string-RoundReads :
    (start c : ℕ) (cs : Text) → len_utf8 c ≡ 1 → RoundReads start (c ∷ cs) (lex_string start cs)
unfolding RoundReads lex_string
lex_string-RoundReads start c cs one = elim (Option-cases (string_body cs)) [
  | inl e ↦ ground (arith, e)
  | inr (x, e) ↦ ground (arith, string_body-StringReads cs, e)
]

float_token-RoundReads :
    (parse_f64 : Text → Option ℕ) (raw : Text) (start : ℕ) (rest cs : Text)
    → length raw + byte_len rest ≡ byte_len cs
    → length rest < length cs
    → 0 < length raw
    → RoundReads start cs (float_token parse_f64 raw start rest)
unfolding RoundReads float_token
float_token-RoundReads parse_f64 raw start rest cs b l p = elim (Option-cases (parse_f64 raw)) [
  | inl e ↦ ground (arith, e)
  | inr (x, e) ↦ elim (Result-cases (float64_new x)) [
    | inl (f, k) ↦
        rw (e, k, float_token, RoundReads)
          (emit-RoundReads (float64 f) start (length raw) rest cs b l p)
    | inr (f, k) ↦ rw (e, k, float_token, RoundReads) tt
  ]
]

integer_token-RoundReads :
    (raw : Text) (start : ℕ) (rest cs : Text)
    → length raw + byte_len rest ≡ byte_len cs
    → length rest < length cs
    → 0 < length raw
    → RoundReads start cs (integer_token raw start rest)
unfolding RoundReads integer_token
integer_token-RoundReads raw start rest cs b l p = ground arith

tail-Reads : (cs : Text) → should_lex_fraction cs ≡ true → Reads cs 1 (tail cs)
tail-Reads [] h = ground arith
tail-Reads (c ∷ []) h = ground arith
tail-Reads (c ∷ d ∷ ds) h = ground arith

scan_while-shorter :
    (holds : ℕ → Bool) (c : ℕ) (cs : Text)
    → IsAscii holds
    → holds c ≡ true
    → (length (scan_while holds (c ∷ cs)).1 < length (c ∷ cs))
      × (0 < length (scan_while holds (c ∷ cs)).0)
unfolding scan_while
scan_while-shorter holds c cs ascii h = ground (arith, scan_while-Reads holds ascii cs, h)

lex_number-RoundReads :
    (parse_f64 : Text → Option ℕ) (start c : ℕ) (cs : Text)
    → is_ascii_digit c ≡ true
    → RoundReads start (c ∷ cs) (lex_number parse_f64 start (c ∷ cs))
unfolding lex_number
lex_number-RoundReads parse_f64 start c cs h =
    let whole = scan_while is_ascii_digit (c ∷ cs) in
    let fraction = scan_while is_ascii_digit (tail whole.1) in
    let w = scan_while-Reads is_ascii_digit digit-IsAscii (c ∷ cs) in
    let s = scan_while-shorter is_ascii_digit c cs digit-IsAscii h in
    elim (Bool-cases (should_lex_fraction whole.1)) [
      | inl dot ↦
          let f = scan_while-Reads is_ascii_digit digit-IsAscii (tail whole.1) in
          let t = tail-Reads whole.1 dot in
          rw dot (
            float_token-RoundReads parse_f64 (whole.0 ++ b'.' ∷ fraction.0) start fraction.1
              (c ∷ cs) (omega (arith, w, f, t, length-append whole.0 (b'.' ∷ fraction.0)))
              (omega (arith, w, f, t, s))
              (omega (arith, s, length-append whole.0 (b'.' ∷ fraction.0))))
      | inr none_ ↦ rw none_ (integer_token-RoundReads whole.0 start whole.1 (c ∷ cs) w.0 s.0 s.1)
    ]

lex_operator-RoundReads :
    (start c : ℕ) (cs : Text)
    → is_operator_byte c ≡ true
    → RoundReads start (c ∷ cs) (ok (lex_operator start (c ∷ cs)))
unfolding RoundReads lex_operator
lex_operator-RoundReads start c cs h =
    let w = scan_while-Reads is_operator_byte operator-IsAscii (c ∷ cs) in
    let s = scan_while-shorter is_operator_byte c cs operator-IsAscii h in ground (arith, w, s)

lex_identifier-RoundReads :
    (start c : ℕ) (cs : Text)
    → is_identifier_start c ≡ true
    → RoundReads start (c ∷ cs) (ok (lex_identifier_or_keyword start c cs))
unfolding RoundReads
lex_identifier-RoundReads start c cs h =
    let w = scan_while-Reads is_identifier_continue continue-IsAscii cs in
    ground (arith, w, start-IsAscii c h)

skip_line_comment-RoundReads :
    (start c : ℕ) (cs : Text)
    → RoundReads start
        (c ∷ cs)
        (ok (skip (start + (skip_line_comment (c ∷ cs)).0) (skip_line_comment (c ∷ cs)).1))
unfolding RoundReads skip_line_comment
skip_line_comment-RoundReads start c cs = ground (arith, skip_line_comment-Reads cs)

skip_block_comment-RoundReads :
    (start c : ℕ) (cs : Text)
    → (c == b'/' && starts_with b'*' cs) ≡ true
    → RoundReads start (c ∷ cs) (skip_block_comment start (tail cs))
unfolding RoundReads skip_block_comment
skip_block_comment-RoundReads start c [] h = ground arith
skip_block_comment-RoundReads start c (d ∷ ds) h = elim (Option-cases (block_comment_body 1 ds)) [
  | inl e ↦ ground (arith, e)
  | inr (x, e) ↦ ground (arith, block_comment_body-CommentReads 1 ds, e)
]

refused-RoundReads : (start : ℕ) (cs : Text) → RoundReads start cs (err invalid_input)
unfolding RoundReads
refused-RoundReads start cs = tt

space-RoundReads :
    (start c : ℕ) (cs : Text)
    → is_space c ≡ true
    → RoundReads start (c ∷ cs) (ok (skip (start + 1) cs))
unfolding RoundReads
space-RoundReads start c cs h = ground arith

if-RoundReads :
    (start : ℕ) (cs : Text) (b : Bool) (x y : Result Round)
    → (b ≡ true → RoundReads start cs x)
    → RoundReads start cs y
    → RoundReads start cs (if b then x else y)
if-RoundReads start cs true x y h k = h refl
if-RoundReads start cs false x y h k = k

lex_other-RoundReads :
    (parse_f64 : Text → Option ℕ) (start c : ℕ) (cs : Text)
    → RoundReads start (c ∷ cs) (lex_other parse_f64 start c cs)
unfolding lex_other
lex_other-RoundReads parse_f64 start c cs =
    let all = c ∷ cs in
    if-RoundReads start all _ _ _ (λ h. lex_string-RoundReads start c cs (ground (arith, h)))
      (if-RoundReads start all _ _ _ (lex_number-RoundReads parse_f64 start c cs) (
        if-RoundReads start all _ _ _ (λ h. skip_line_comment-RoundReads start c cs)
          (if-RoundReads start all _ _ _ (skip_block_comment-RoundReads start c cs) (
            if-RoundReads start all _ _ _ (lex_identifier-RoundReads start c cs) (
              if-RoundReads start all _ _ _ (lex_operator-RoundReads start c cs)
                (refused-RoundReads start all))))))

single_kind-byte : (c : ℕ) (kind : TokenKind) → single_kind c ≡ some kind → len_utf8 c ≡ 1
single_kind-byte c kind h = ground arith

pub lex_round-RoundReads :
    (parse_f64 : Text → Option ℕ) (start c : ℕ) (cs : Text)
    → RoundReads start (c ∷ cs) (lex_round parse_f64 start c cs)
unfolding lex_round
lex_round-RoundReads parse_f64 start c cs =
    if-RoundReads start (c ∷ cs) (is_space c) _ _ (space-RoundReads start c cs)
      (elim (Option-cases (single_kind c)) [
        | inl e ↦ rw e (lex_other-RoundReads parse_f64 start c cs)
        | inr (kind, e) ↦ rw e (
            emit-RoundReads kind start 1 cs (c ∷ cs) (omega (arith, single_kind-byte c kind e))
              (omega arith) (omega arith))
      ])
