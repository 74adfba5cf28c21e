-- ===== src/Storage/Codec/Plain.antt =====
-- A cipher and a checksum to run the codec of pages with.
use rnov_modular_db.Base.{
  ◌%◌, ◌^◌, ◌<◌, ◌≡◌, refl, Bool, true, ◌&&◌, none, some, [], ◌∷◌, ltb, if◌then◌else◌, subst, arith,
}
use rnov_modular_db.Security.Audit.{Bytes}
use rnov_modular_db.Security.Audit.Bytes.{denoted, IsBytes}
use rnov_modular_db.Security.Envelope.{Cipher}
use rnov_modular_db.Storage.Codec.{Crc}
use rnov_modular_db.Storage.Codec.Sealed.{IsAuthentic}

-- A checksum, and a cipher that seals bytes by writing them down.
abbrev pub number_crc : Crc
number_crc bytes = denoted 0 bytes % 2 ^ 64

pub number_crc_small : (bytes : Bytes) → number_crc bytes < 2 ^ 64
number_crc_small bytes = omega arith

abbrev pub all_bytes : Bytes → Bool
all_bytes [] = true
all_bytes (b ∷ bs) = ltb b 256 && all_bytes bs

pub IsBytes-all_bytes : (bs : Bytes) → all_bytes bs ≡ true → IsBytes bs
IsBytes-all_bytes [] h = tt
IsBytes-all_bytes (b ∷ bs) h = (ground (arith, h), IsBytes-all_bytes bs (ground (arith, h)))

abbrev pub plain : Cipher
plain key nonce aad message = if all_bytes message then some message else none

pub plain_opens :
    (message sealed : Bytes)
    → (if all_bytes message then some message else none) ≡ some sealed
    → (message ≡ sealed) × (all_bytes message ≡ true)
plain_opens message sealed e = ground (arith, e)

pub plain-IsAuthentic : IsAuthentic plain plain
plain-IsAuthentic key nonce aad message sealed = (
  λ e. let (same_bytes, bytes) = plain_opens message sealed e in rw (← same_bytes, bytes) refl,
  λ e.
      let (same_bytes, bytes) = plain_opens sealed message e in
      (rw (← same_bytes, bytes) refl, subst IsBytes same_bytes (IsBytes-all_bytes sealed bytes)),
)
