-- ===== src/Security/Envelope/Laws.antt =====
-- An envelope decodes to what was encoded, and nothing else decodes.
use rnov_modular_db.Base.{
  ℕ, zero, suc, ◌+◌, ◌-◌, ◌≤◌, ◌<◌, ◌≡◌, refl, sym, ap, ◌∙◌, ◌⊎◌, inl, inr, some, [], ◌∷◌, ◌++◌,
  ◌==◌, ltb, length, length-append, Bool-cases, Option-cases, arith,
}
use rnov_modular_db.Common.{ok, err, corruption, security}
use rnov_modular_db.Collections.Order.{same, same_iff, list_order, nat_order}
use rnov_modular_db.Security.Audit.{Bytes}
use rnov_modular_db.Security.Envelope.{
  take, drop, byte_at, column_value_magic, encode_column_value_envelope, ColumnValueEnvelope,
  decode, column_value_associated_data, Cipher, encrypt_column_value_with_nonce,
  decrypt_column_value,
}

pub take-drop : (n : ℕ) (bs : Bytes) → take n bs ++ drop n bs ≡ bs
take-drop zero bs = refl
take-drop (suc n) [] = refl
take-drop (suc n) (b ∷ bs) = ap (λ r. b ∷ r) (take-drop n bs)

pub drop_next : (n : ℕ) (bs : Bytes) → n < length bs → drop n bs ≡ byte_at n bs ∷ drop (suc n) bs
drop_next n [] h = ground arith
drop_next zero (b ∷ bs) h = refl
drop_next (suc n) (b ∷ bs) h = drop_next n bs (omega (arith, h))

drop_nil : (n : ℕ) → drop n [] ≡ []
drop_nil zero = refl
drop_nil (suc n) = refl

pub drop-drop : (m n k : ℕ) (bs : Bytes) → k ≡ n + m → drop m (drop n bs) ≡ drop k bs
drop-drop m zero k bs e = ap (λ j. drop j bs) (omega (arith, e))
drop-drop m (suc n) k [] e = drop_nil m ∙ sym (drop_nil k)
drop-drop m (suc n) zero (b ∷ bs) e = ground arith
drop-drop m (suc n) (suc k) (b ∷ bs) e = drop-drop m n k bs (omega (arith, e))

pub length-drop : (n : ℕ) (bs : Bytes) → length (drop n bs) ≡ length bs - n
length-drop zero bs = omega arith
length-drop (suc n) [] = omega arith
length-drop (suc n) (b ∷ bs) = omega (arith, length-drop n bs)

pub length-take : (n : ℕ) (bs : Bytes) → n ≤ length bs → length (take n bs) ≡ n
length-take zero bs h = refl
length-take (suc n) [] h = ground arith
length-take (suc n) (b ∷ bs) h = omega (arith, length-take n bs (omega (arith, h)))

pub take-append : (n : ℕ) (xs ys : Bytes) → length xs ≡ n → take n (xs ++ ys) ≡ xs
take-append zero [] ys h = refl
take-append zero (x ∷ xs) ys h = ground arith
take-append (suc n) [] ys h = ground arith
take-append (suc n) (x ∷ xs) ys h = ap (λ r. x ∷ r) (take-append n xs ys (omega (arith, h)))

pub drop-append : (n : ℕ) (xs ys : Bytes) → length xs ≡ n → drop n (xs ++ ys) ≡ ys
drop-append zero [] ys h = refl
drop-append zero (x ∷ xs) ys h = ground arith
drop-append (suc n) [] ys h = ground arith
drop-append (suc n) (x ∷ xs) ys h = drop-append n xs ys (omega (arith, h))

-- What the code calls an envelope with these parts.
abbrev pub IsEnvelope : Bytes → ColumnValueEnvelope → Type 0
IsEnvelope encrypted e =
    (encrypted ≡ encode_column_value_envelope e.nonce e.ciphertext) × (length e.nonce ≡ 12)

pub decode-encode :
    (nonce ciphertext : Bytes)
    → length nonce ≡ 12
    → decode (encode_column_value_envelope nonce ciphertext)
      ≡ ok (record { nonce = nonce; ciphertext = ciphertext })
unfolding decode encode_column_value_envelope
decode-encode nonce ciphertext h = ground (
  arith,
  h,
  length-append nonce ciphertext,
  take-append 12 nonce ciphertext h,
  drop-append 12 nonce ciphertext h,
)

refused :
    (bs : Bytes)
    → decode bs ≡ err corruption
    → (decode bs ≡ err corruption) × ¬ ((e : ColumnValueEnvelope) × IsEnvelope bs e)
refused bs h =
    (h, λ (e, (is, l)). absurd (cc (h, ap decode is, decode-encode e.nonce e.ciphertext l)))

-- The parts that `decode` cuts out make up the bytes, where the header is right.
parts :
    (bs : Bytes)
    → 21 ≤ length bs
    → take 8 bs ≡ column_value_magic
    → byte_at 8 bs ≡ 1
    → IsEnvelope bs (record { nonce = take 12 (drop 9 bs); ciphertext = drop 21 bs })
unfolding encode_column_value_envelope
parts bs long magic version = (
  sym (take-drop 8 bs)
      ∙ (ap (λ m. m ++ drop 8 bs) magic
          ∙ ap (λ r. column_value_magic ++ r)
              (drop_next 8 bs (omega (arith, long))
                ∙ (ap (λ v. v ∷ drop 9 bs) version
                    ∙ ap (λ r. 1 ∷ r)
                        (sym (take-drop 12 (drop 9 bs))
                          ∙ ap (λ r. take 12 (drop 9 bs) ++ r)
                              (drop-drop 12 9 21 bs (omega arith)))))),
  length-take 12 (drop 9 bs) (omega (arith, long, length-drop 9 bs)),
)

-- Decoding accepts exactly what encoding makes of twelve bytes of nonce and a ciphertext, and returns
-- those; everything else is reported as corruption.
pub decode_outcome :
    (bs : Bytes)
    → ((e : ColumnValueEnvelope) × (decode bs ≡ ok e) × IsEnvelope bs e)
      ⊎ ((decode bs ≡ err corruption) × ¬ ((e : ColumnValueEnvelope) × IsEnvelope bs e))
unfolding decode
decode_outcome bs = elim (Bool-cases (ltb (length bs) 21)) [
  | inl short ↦ inr (refused bs (rw (short, decode) refl))
  | inr long ↦ elim (Bool-cases (same (take 8 bs) column_value_magic)) [
    | inr other ↦ inr (refused bs (rw (long, decode, other) refl))
    | inl magic ↦ elim (Bool-cases (byte_at 8 bs == 1)) [
      | inr newer ↦ inr (refused bs (rw (long, decode, magic, newer) refl))
      | inl version ↦ inl (
        record { nonce = take 12 (drop 9 bs); ciphertext = drop 21 bs },
        rw (long, decode, magic, version) refl,
        parts bs (ground arith) ((same_iff (take 8 bs) column_value_magic).0 magic) (ground arith),
      )
    ]
  ]
]

-- With a cipher that opens what it seals, and a nonce of twelve bytes, encryption fails as an error
-- of security, or its result is decrypted to the plaintext with the same key for the same column.
pub decrypt-encrypt :
    (encrypt decrypt : Cipher)
    → ((key nonce aad message sealed : Bytes)
        → encrypt key nonce aad message ≡ some sealed
        → decrypt key nonce aad sealed ≡ some message)
    → (key : Bytes) (relation_id : ℕ) (column_name plaintext nonce : Bytes) → length nonce ≡ 12
    → (encrypt_column_value_with_nonce encrypt key relation_id column_name plaintext nonce
        ≡ err security)
      ⊎ ((encrypted : Bytes) × (encrypt_column_value_with_nonce encrypt key relation_id column_name
              plaintext nonce
            ≡ ok encrypted)
          × (decrypt_column_value decrypt key relation_id column_name encrypted ≡ ok plaintext))
unfolding encrypt_column_value_with_nonce decrypt_column_value
decrypt-encrypt encrypt decrypt opens key relation_id column_name plaintext nonce l =
    let aad = column_value_associated_data relation_id column_name in
    elim (Option-cases (encrypt key nonce aad plaintext)) [
      | inl failed ↦ inl (rw failed refl)
      | inr (sealed, is) ↦ inr (
        encode_column_value_envelope nonce sealed,
        rw is refl,
        rw (decode-encode nonce sealed l) (rw (opens key nonce aad plaintext sealed is) refl),
      )
    ]
