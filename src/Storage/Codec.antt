-- ===== src/Storage/Codec.antt =====
-- crates/rnmdb-storage/src/lib.rs: `PageCodec`, the bytes of a page, and `PageCrypto`, their
-- encryption. CRC-64 and ChaCha20-Poly1305 are parameters; `usize` has 64 bits.
pub mod Layout
pub mod Laws
pub mod Exact
pub mod Sealed
pub mod Plain
mod Tests
use rnov_modular_db.Base.{ℕ, ◌+◌, not, [], ◌∷◌, ◌++◌, ◌==◌, ltb, length}
use rnov_modular_db.Common.{Result, ok, err, corruption, reject_if, ◌>>=◌, ◌>>◌}
use rnov_modular_db.Collections.Order.{same, list_order, nat_order}
use rnov_modular_db.Security.Audit.{Bytes, be_bytes, to_be_bytes}
use rnov_modular_db.Security.Audit.Bytes.{denoted}
use rnov_modular_db.Security.Envelope.{take, drop, byte_at, Cipher, or_security}
use rnov_modular_db.Storage.Page.{
  PageHeader, header_new, format_version_2, Page, id, new_with_header,
}

-- `PAGE_CRC64`
abbrev pub Crc : Type 0
Crc = Bytes → ℕ

-- `u64::from_be_bytes`
abbrev pub from_be_bytes : Bytes → ℕ
from_be_bytes = denoted 0

-- `PageCodec::MAGIC`, which is `RNOVPAGE`
abbrev pub page_magic : Bytes
page_magic = 82 ∷ 78 ∷ 79 ∷ 86 ∷ 80 ∷ 65 ∷ 71 ∷ 69 ∷ []

-- `PageCodec::HEADER_LEN`, which is 8 + 1 + 8 + 8 + 8 + 8
abbrev pub header_len : ℕ
header_len = 41

unfoldable pub checksum_page : Crc → PageHeader → Bytes → ℕ
checksum_page crc header payload = crc (
    to_be_bytes header.page_id
    ++ (to_be_bytes header.lsn
        ++ (to_be_bytes header.page_size ++ (header.format_version ∷ payload))))

-- `PageHeader::with_checksum`
abbrev pub with_checksum : ℕ → PageHeader → PageHeader
with_checksum checksum header = record header { checksum = checksum }

-- the header that `PageCodec::encode` writes
abbrev pub encoded_header : Crc → Page → PageHeader
encoded_header crc page =
    let header = record (page.header) { format_version = format_version_2 } in
    with_checksum (checksum_page crc header page.payload) header

-- `PageCodec::encode`
unfoldable pub encode : Crc → Page → Result Bytes
encode crc page =
    let header = encoded_header crc page in
    ok (
      page_magic
      ++ (header.format_version
          ∷ (to_be_bytes header.page_id
              ++ (to_be_bytes header.lsn
                  ++ (to_be_bytes header.page_size
                      ++ (to_be_bytes header.checksum ++ page.payload))))))

unfoldable pub read_header_array : ℕ → ℕ → Bytes → Result Bytes
read_header_array n offset bytes =
    reject_if (ltb (length bytes) (offset + n)) corruption >> ok (take n (drop offset bytes))

-- `PageCodec::validate_encoded_header`
unfoldable pub validate_encoded_header : Bytes → Result (Unit {0})
validate_encoded_header bytes =
    reject_if (ltb (length bytes) header_len) corruption
    >> reject_if (not (same (take 8 bytes) page_magic)) corruption
    >> reject_if (not (byte_at 8 bytes == format_version_2)) corruption

-- `PageCodec::decode_header`
unfoldable pub decode_header : Bytes → Result PageHeader
unfolding validate_encoded_header read_header_array
decode_header bytes = do
  checked ← validate_encoded_header bytes
  page_id ← read_header_array 8 9 bytes
  lsn ← read_header_array 8 17 bytes
  page_size ← read_header_array 8 25 bytes
  checksum ← read_header_array 8 33 bytes
  ok (
      with_checksum (from_be_bytes checksum)
        (header_new (from_be_bytes page_id) (from_be_bytes lsn) (from_be_bytes page_size)))

-- `PageCodec::validate_payload`
unfoldable pub validate_payload : Crc → PageHeader → Bytes → Result (Unit {0})
validate_payload crc header payload =
    reject_if (not (length payload == header.page_size)) corruption
    >> reject_if (not (header.checksum == checksum_page crc header payload)) corruption

-- `PageCodec::decode`
unfoldable pub decode : Crc → Bytes → Result Page
decode crc bytes = do
  header ← decode_header bytes
  let payload = drop header_len bytes
  checked ← validate_payload crc header payload
  new_with_header header payload

-- `page_associated_data`
unfoldable pub page_associated_data : ℕ → Bytes
page_associated_data page_id = to_be_bytes page_id

-- `PageNonce::from_page_counter`
unfoldable pub from_page_counter : ℕ → ℕ → Bytes
from_page_counter page_id counter = to_be_bytes page_id ++ be_bytes 4 counter

-- `PageCrypto::encrypt`
unfoldable pub encrypt_page : Cipher → Crc → Bytes → Bytes → Page → Result Bytes
encrypt_page encrypt crc key nonce page = do
  encoded ← encode crc page
  or_security (encrypt key nonce (page_associated_data (id page)) encoded)

-- `PageCrypto::decrypt`
unfoldable pub decrypt_page : Cipher → Crc → Bytes → Bytes → ℕ → Bytes → Result Page
decrypt_page decrypt crc key nonce page_id ciphertext = do
  encoded ← or_security (decrypt key nonce (page_associated_data page_id) ciphertext)
  page ← decode crc encoded
  reject_if (not (id page == page_id)) corruption >> ok page
