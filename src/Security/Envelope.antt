-- ===== src/Security/Envelope.antt =====
-- crates/rnmdb-security/src/lib.rs: the envelope of an encrypted column value, and the encryption
-- and decryption around it. ChaCha20-Poly1305 is a parameter.
pub mod Laws
use rnov_modular_db.Base.{
  ℕ, zero, suc, Bool, true, false, not, Option, none, some, List, [], ◌∷◌, ◌++◌, ◌==◌, ltb, length,
  if◌then◌else◌,
}
use rnov_modular_db.Common.{Result, ok, err, corruption, security, reject_if, ◌>>=◌, ◌>>◌}
use rnov_modular_db.Collections.Order.{same, list_order, nat_order}
use rnov_modular_db.Security.Audit.{Bytes, to_be_bytes}

-- The first `n` bytes, and those after them.
abbrev pub take : ℕ → Bytes → Bytes
take zero bs = []
take (suc n) [] = []
take (suc n) (b ∷ bs) = b ∷ take n bs

abbrev pub drop : ℕ → Bytes → Bytes
drop zero bs = bs
drop (suc n) [] = []
drop (suc n) (b ∷ bs) = drop n bs

-- A byte by its index, which the code reads only within the length.
abbrev pub byte_at : ℕ → Bytes → ℕ
byte_at n [] = 0
byte_at zero (b ∷ bs) = b
byte_at (suc n) (b ∷ bs) = byte_at n bs

-- `RNOVCV01`
abbrev pub column_value_magic : Bytes
column_value_magic = 82 ∷ 78 ∷ 79 ∷ 86 ∷ 67 ∷ 86 ∷ 48 ∷ 49 ∷ []

abbrev pub column_value_version : ℕ
column_value_version = 1

-- `encode_column_value_envelope`
pub encode_column_value_envelope : Bytes → Bytes → Bytes
encode_column_value_envelope nonce ciphertext =
    column_value_magic ++ (column_value_version ∷ (nonce ++ ciphertext))

pub record ColumnValueEnvelope : Type 0 where
  pub nonce : Bytes
  pub ciphertext : Bytes

-- `ensure_column_value_magic`
abbrev pub ensure_column_value_magic : Bytes → Result (Unit {0})
ensure_column_value_magic encrypted =
    if same (take 8 encrypted) column_value_magic then ok tt else err corruption

-- `ensure_column_value_version`
abbrev pub ensure_column_value_version : ℕ → Result (Unit {0})
ensure_column_value_version version =
    if version == column_value_version then ok tt else err corruption

-- `ensure_column_value_header`; the header has 8 + 1 + 12 bytes
abbrev pub ensure_column_value_header : Bytes → Result (Unit {0})
ensure_column_value_header encrypted =
    reject_if (ltb (length encrypted) 21) corruption
    >> ensure_column_value_magic encrypted
    >> ensure_column_value_version (byte_at 8 encrypted)

-- `ColumnValueEnvelope::decode`
pub decode : Bytes → Result ColumnValueEnvelope
decode encrypted =
    ensure_column_value_header encrypted
    >> ok (record { nonce = take 12 (drop 9 encrypted); ciphertext = drop 21 encrypted })

-- `RNOVDB-COLUMN-VALUE-V1`
abbrev pub value_domain : Bytes
value_domain =
    82 ∷ 78 ∷ 79 ∷ 86 ∷ 68 ∷ 66 ∷ 45 ∷ 67 ∷ 79 ∷ 76 ∷ 85 ∷ 77 ∷ 78 ∷ 45 ∷ 86 ∷ 65 ∷ 76 ∷ 85 ∷ 69
    ∷ 45 ∷ 86 ∷ 49 ∷ []

-- `column_value_associated_data`
abbrev pub column_value_associated_data : ℕ → Bytes → Bytes
column_value_associated_data relation_id column_name =
    value_domain ++ (to_be_bytes relation_id ++ (to_be_bytes (length column_name) ++ column_name))

-- `cipher.encrypt` and `cipher.decrypt`, by key, nonce, associated data and message; `none` is their
-- error.
abbrev pub Cipher : Type 0
Cipher = Bytes → Bytes → Bytes → Bytes → Option Bytes

-- `.map_err(..)` to an error of security
abbrev pub or_security {ℓ} : {T : Type ℓ} → Option T → Result T
or_security none = err security
or_security (some t) = ok t

-- `encrypt_column_value_with_nonce`
pub encrypt_column_value_with_nonce : Cipher → Bytes → ℕ → Bytes → Bytes → Bytes → Result Bytes
encrypt_column_value_with_nonce encrypt key relation_id column_name plaintext nonce =
    or_security (encrypt key nonce (column_value_associated_data relation_id column_name) plaintext)
    >>= λ ciphertext. ok (encode_column_value_envelope nonce ciphertext)

-- `decrypt_column_value`
pub decrypt_column_value : Cipher → Bytes → ℕ → Bytes → Bytes → Result Bytes
decrypt_column_value decrypt key relation_id column_name encrypted =
    decode encrypted >>= λ envelope. or_security (
      decrypt key envelope.nonce (column_value_associated_data relation_id column_name)
        envelope.ciphertext)
