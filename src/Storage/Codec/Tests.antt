-- ===== src/Storage/Codec/Tests.antt =====
-- A page that is encoded and encrypted, and uses of the theorems.
use rnov_modular_db.Base.{◌≡◌, ◌↔◌, refl, [], ◌∷◌, ◌++◌}
use rnov_modular_db.Common.{ok, err, corruption}
use rnov_modular_db.Security.Audit.{Bytes}
use rnov_modular_db.Security.Envelope.{take}
use rnov_modular_db.Storage.Codec.{
  checksum_page, encode, read_header_array, validate_encoded_header, decode_header,
  validate_payload, decode, encrypt_page, decrypt_page,
}
use rnov_modular_db.Storage.Codec.Laws.{seal}
use rnov_modular_db.Storage.Codec.Exact.{IsSealed, decode_iff}
use rnov_modular_db.Storage.Codec.Sealed.{decrypt_iff}
use rnov_modular_db.Storage.Codec.Plain.{
  number_crc, number_crc_small, IsBytes-all_bytes, plain, plain-IsAuthentic,
}
use rnov_modular_db.Storage.Page.{Page, header_new, id}

abbrev stored_page : Page
stored_page = seal number_crc (record { header = header_new 7 3 2; payload = 65 ∷ 66 ∷ [] })

abbrev stored_bytes : Bytes
stored_bytes =
    82 ∷ 78 ∷ 79 ∷ 86 ∷ 80 ∷ 65 ∷ 71 ∷ 69 ∷ 2 ∷ 0 ∷ 0 ∷ 0 ∷ 0 ∷ 0 ∷ 0 ∷ 0 ∷ 7 ∷ 0 ∷ 0 ∷ 0 ∷ 0 ∷ 0
    ∷ 0 ∷ 0 ∷ 3 ∷ 0 ∷ 0 ∷ 0 ∷ 0 ∷ 0 ∷ 0 ∷ 0 ∷ 2 ∷ 0 ∷ 0 ∷ 0 ∷ 0 ∷ 2 ∷ 2 ∷ 65 ∷ 66 ∷ 65 ∷ 66 ∷ []

encode_stored : encode number_crc stored_page ≡ ok stored_bytes
unfolding encode checksum_page
encode_stored = refl

-- One bit of the payload is changed.
decode_damaged : decode number_crc (take 42 stored_bytes ++ (67 ∷ [])) ≡ err corruption
unfolding decode decode_header validate_encoded_header read_header_array validate_payload
    checksum_page
decode_damaged = refl

decode_iff_example :
    (decode number_crc stored_bytes ≡ ok stored_page)
    ↔ ((encode number_crc stored_page ≡ ok stored_bytes) × IsSealed number_crc stored_page)
decode_iff_example =
    decode_iff number_crc number_crc_small stored_bytes stored_page
      (IsBytes-all_bytes stored_bytes refl)

decrypt_iff_example : (decrypt_page plain number_crc [] [] 7 stored_bytes ≡ ok stored_page) ↔ (
    (encrypt_page plain number_crc [] [] stored_page ≡ ok stored_bytes)
    × IsSealed number_crc stored_page
    × (id stored_page ≡ 7))
decrypt_iff_example =
    decrypt_iff plain plain number_crc plain-IsAuthentic number_crc_small [] [] 7 stored_bytes
      stored_page
