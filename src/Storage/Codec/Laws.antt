-- ===== src/Storage/Codec/Laws.antt =====
-- A page decodes to what was encoded, and nothing else decodes.
use rnov_modular_db.Base.{◌^◌, ◌<◌, ◌≡◌, refl, ◌∙◌, length, arith}
use rnov_modular_db.Common.{ok, ◌>>◌, ◌>>=◌}
use rnov_modular_db.Collections.Order.{list_order, nat_order}
use rnov_modular_db.Security.Audit.{Bytes, to_be_bytes}
use rnov_modular_db.Security.Audit.Bytes.{denoted-be_bytes, length-be_bytes}
use rnov_modular_db.Storage.Page.{PageHeader, Page, new_with_header}
use rnov_modular_db.Storage.Codec.{
  Crc, checksum_page, encoded_header, encode, validate_payload, decode,
}
use rnov_modular_db.Storage.Codec.Layout.{
  laid_out, header_of, drop-laid_out, decode_header-laid_out,
}

-- A page that has a payload, of the length that its header says, and numbers of 64 bits.
abbrev pub IsStorable : Page → Type 0
IsStorable page =
    (page.header.page_id < 2 ^ 64)
    × (page.header.lsn < 2 ^ 64)
    × (0 < length page.payload)
    × (length page.payload < 2 ^ 64)
    × (page.header.page_size ≡ length page.payload)

-- The page as `encode` writes it, with the version and the checksum set.
abbrev pub seal : Crc → Page → Page
seal crc page = record { header = encoded_header crc page; payload = page.payload }

module _ (crc : Crc) where
  pub decode-laid_out :
      (a b c d payload : Bytes)
      → length a ≡ 8
      → length b ≡ 8
      → length c ≡ 8
      → length d ≡ 8
      → decode crc (laid_out a b c d payload) ≡ (
          validate_payload crc (header_of a b c d) payload
          >> new_with_header (header_of a b c d) payload)
  unfolding decode
  decode-laid_out a b c d payload la lb lc ld =
      rw
        (
          decode,
          decode_header-laid_out a b c d payload la lb lc ld,
          drop-laid_out a b c d payload la lb lc ld,
        )
        refl

  accepted :
      (h : PageHeader) (payload : Bytes)
      → 0 < length payload
      → h.page_size ≡ length payload
      → h.checksum ≡ checksum_page crc h payload
      → (validate_payload crc h payload >> new_with_header h payload)
        ≡ ok (record { header = h; payload = payload })
  unfolding validate_payload
  accepted h payload some_bytes size checksum = ground (arith, some_bytes, size, checksum)

  pub accepted_only :
      (h : PageHeader) (payload : Bytes) (page : Page)
      → (validate_payload crc h payload >> new_with_header h payload) ≡ ok page
      → (page ≡ record { header = h; payload = payload })
        × (0 < length payload)
        × (h.page_size ≡ length payload)
        × (h.checksum ≡ checksum_page crc h payload)
  unfolding validate_payload
  accepted_only h payload page e = ground (arith, e)

  -- Decoding the bytes of a page whose numbers have 64 bits, and whose payload is not empty and as
  -- long as its header says, gives the page, with the version and the checksum that were written.
  pub decode-encode :
      ((bytes : Bytes) → crc bytes < 2 ^ 64)
      → (page : Page) → IsStorable page
      → (encode crc page >>= decode crc) ≡ ok (seal crc page)
  unfolding encode checksum_page laid_out
  decode-encode small page (id64, lsn64, some_bytes, size64, size) =
      let h = encoded_header crc page in
      decode-laid_out (to_be_bytes h.page_id) (to_be_bytes h.lsn) (to_be_bytes h.page_size)
        (to_be_bytes h.checksum) page.payload (length-be_bytes 8 h.page_id)
        (length-be_bytes 8 h.lsn) (length-be_bytes 8 h.page_size) (length-be_bytes 8 h.checksum)
      ∙ rw
          (
            denoted-be_bytes 8 h.page_id id64,
            denoted-be_bytes 8 h.lsn lsn64,
            denoted-be_bytes 8 h.page_size (omega (arith, size, size64)),
            denoted-be_bytes 8 h.checksum (small _),
          )
          (accepted h page.payload some_bytes size refl)
