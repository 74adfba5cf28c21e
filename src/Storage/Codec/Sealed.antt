-- ===== src/Storage/Codec/Sealed.antt =====
-- A page that was encrypted is decrypted under its own id, and under no other.
use rnov_modular_db.Base.{ℕ, ◌≡◌, ◌↔◌, refl, ap, ◌∙◌, Option, some, ◌==◌, not, ◌^◌, ◌<◌, arith}
use rnov_modular_db.Common.{Result, ok, err, corruption, reject_if, ◌>>=◌, ◌>>◌}
use rnov_modular_db.Security.Audit.{Bytes}
use rnov_modular_db.Security.Audit.Bytes.{IsBytes}
use rnov_modular_db.Security.Envelope.{Cipher, or_security}
use rnov_modular_db.Storage.Page.{Page, id}
use rnov_modular_db.Storage.Codec.{
  Crc, page_associated_data, encode, decode, encrypt_page, decrypt_page,
}
use rnov_modular_db.Storage.Codec.Exact.{IsSealed, decode_written, decode_iff}

-- What is opened is what was sealed with the same key, nonce and associated data, and it is bytes.
abbrev pub IsAuthentic : Cipher → Cipher → Type 0
IsAuthentic encrypt decrypt =
    (key nonce aad message sealed : Bytes)
    → ((encrypt key nonce aad message ≡ some sealed) → decrypt key nonce aad sealed ≡ some message)
      × ((decrypt key nonce aad sealed ≡ some message)
          → (encrypt key nonce aad message ≡ some sealed) × IsBytes message)

pub or_security_ok : {T : Type 0} (r : Option T) (t : T) → or_security r ≡ ok t → r ≡ some t
or_security_ok r t e = ground (arith, e)

-- An `ok` of a sequence has an `ok` of its first part.
pub and_then_ok :
    {S T : Type 0} (r : Result S) (rest : S → Result T) (t : T)
    → (r >>= rest) ≡ ok t
    → (s : S) × (r ≡ ok s) × (rest s ≡ ok t)
and_then_ok (err k) rest t e = ground (arith, e)
and_then_ok (ok s) rest t e = (s, refl, e)

ensured_id :
    (i : ℕ) (p page : Page)
    → (reject_if (not (id p == i)) corruption >> ok p) ≡ ok page
    → (p ≡ page) × (id page ≡ i)
ensured_id i p page e = ground (arith, e)

module _ (encrypt decrypt : Cipher) (crc : Crc) (authentic : IsAuthentic encrypt decrypt)
    (small : (bytes : Bytes) → crc bytes < 2 ^ 64) (key nonce : Bytes) where
  opened :
      (page_id : ℕ) (ciphertext : Bytes) (page : Page)
      → decrypt_page decrypt crc key nonce page_id ciphertext ≡ ok page
      → (encoded : Bytes) × (decrypt key nonce (page_associated_data page_id) ciphertext
          ≡ some encoded)
        × (decode crc encoded ≡ ok page)
        × (id page ≡ page_id)
  unfolding decrypt_page
  opened page_id ciphertext page e =
      let aad = page_associated_data page_id in
      let ensure_id : Page → Result Page =
        λ p. reject_if (not (id p == page_id)) corruption >> ok p in
      let rest : Bytes → Result Page = λ encoded. decode crc encoded >>= ensure_id in
      let (encoded, is, e1) =
        and_then_ok (or_security (decrypt key nonce aad ciphertext)) rest page e in
      let (p, decoded, e2) = and_then_ok (decode crc encoded) ensure_id page e1 in
      let (same_page, same_id) = ensured_id page_id p page e2 in
      (
        encoded,
        or_security_ok (decrypt key nonce aad ciphertext) encoded is,
        decoded ∙ ap ok same_page,
        same_id,
      )

  -- With a cipher that authenticates and a checksum of 64 bits, decryption under an id returns a
  -- page exactly where the ciphertext is the encryption of this page with the same key and nonce,
  -- the page can be stored and has the version and the checksum set, and the id is its own.
  pub decrypt_iff :
      (page_id : ℕ) (ciphertext : Bytes) (page : Page)
      → (decrypt_page decrypt crc key nonce page_id ciphertext ≡ ok page) ↔ (
          (encrypt_page encrypt crc key nonce page ≡ ok ciphertext)
          × IsSealed crc page
          × (id page ≡ page_id))
  unfolding encrypt_page decrypt_page
  decrypt_iff page_id ciphertext page = (
    λ e.
        (let (encoded, open_to, decoded, same_id) = opened page_id ciphertext page e in
          let (sealed, bytes) =
            (authentic key nonce (page_associated_data page_id) encoded ciphertext).1 open_to in
          let (written, is_sealed) = (decode_iff crc small encoded page bytes).0 decoded in
          (rw (encrypt_page, written, same_id, sealed) refl, is_sealed, same_id)),
    λ (sealed, is_sealed, same_id).
        (let seal_bytes : Bytes → Result Bytes =
            λ encoded. or_security (encrypt key nonce (page_associated_data (id page)) encoded) in
          let (encoded, written, e) = and_then_ok (encode crc page) seal_bytes ciphertext sealed in
          let open_to =
            (authentic key nonce (page_associated_data (id page)) encoded ciphertext).0 (
              or_security_ok (encrypt key nonce (page_associated_data (id page)) encoded) ciphertext
                e) in
          rw
            (
              decrypt_page,
              ← same_id,
              open_to,
              decode_written crc small encoded page written is_sealed,
            )
            (ground arith)),
  )
