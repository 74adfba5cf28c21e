-- ===== src/Storage/SingleFile/Offsets.antt =====
-- crates/rnmdb-storage/src/lib.rs: the offsets of pages in a single file, and the length and the seal of
-- what is encoded.
use native.Mathlib.Nat.{eq_of_mul-eq-mul_right}
use rnov_modular_db.Base.{
  ℕ, ◌+◌, ◌-◌, ◌*◌, ◌^◌, ◌≡◌, refl, sym, ap, ◌∙◌, Bool, true, false, not, length, ltb, ◌==◌, arith,
}
use rnov_modular_db.Common.{ErrorKind, Result, ok, err, invalid_input, reject_if, ◌>>◌}
use rnov_modular_db.Collections.Order.{nat_order}
use rnov_modular_db.Security.Audit.{Bytes, to_be_bytes}
use rnov_modular_db.Security.Audit.Bytes.{length-be_bytes}
use rnov_modular_db.Security.Envelope.{Cipher}
use rnov_modular_db.Storage.Page.{Page}
use rnov_modular_db.Storage.Codec.{Crc, checksum_page, encoded_header, encode, encrypt_page}
use rnov_modular_db.Storage.Codec.Layout.{laid_out, length-laid_out}
use rnov_modular_db.Storage.Codec.Laws.{seal, IsStorable}
use rnov_modular_db.Storage.Codec.Exact.{IsSealed}
use rnov_modular_db.Storage.SingleFile.{
  single_file_page_record_size, single_file_data_start, single_file_page_offset, is_page,
}

pub guarded :
    {T : Type 0} (b : Bool) (k : ErrorKind) (r : Result T) (t : T)
    → (reject_if b k >> r) ≡ ok t
    → (b ≡ false) × (r ≡ ok t)
guarded true k r t e = ground (arith, e)
guarded false k r t e = (refl, e)

pub and_then_unit :
    {T : Type 0} (r : Result (Unit {0})) (rest : Result T) (t : T)
    → (r >> rest) ≡ ok t
    → (r ≡ ok tt) × (rest ≡ ok t)
and_then_unit (ok _) rest t e = (refl, e)
and_then_unit (err k) rest t e = ground (arith, e)

pub offset_is :
    (i size o : ℕ)
    → single_file_page_offset i size ≡ ok o
    → ((i == 0) ≡ false) × (o ≡ single_file_data_start + (i - 1) * size)
unfolding single_file_page_offset
offset_is i size o e =
    let checked =
      and_then_unit
        (reject_if (i == 0) invalid_input
          >> reject_if (not (ltb ((i - 1) * size) (2 ^ 64))) invalid_input
          >> reject_if (not (ltb (single_file_data_start + (i - 1) * size) (2 ^ 64))) invalid_input)
        (ok (single_file_data_start + (i - 1) * size)) o e in
    let twice =
      and_then_unit
        (reject_if (i == 0) invalid_input
          >> reject_if (not (ltb ((i - 1) * size) (2 ^ 64))) invalid_input)
        _ tt checked.0 in
    let once = and_then_unit (reject_if (i == 0) invalid_input) _ tt twice.0 in
    (ground (arith, once.0), ap (λ r. elim r [ err k ↦ o | ok n ↦ n ]) (sym checked.1))

-- An offset is that of one page only.
pub offset_injective :
    (size i j o : ℕ)
    → single_file_page_offset i (single_file_page_record_size size) ≡ ok o
    → single_file_page_offset j (single_file_page_record_size size) ≡ ok o
    → i ≡ j
offset_injective size i j o a b =
    let (i_nonzero, i_at) = offset_is i (single_file_page_record_size size) o a in
    let (j_nonzero, j_at) = offset_is j (single_file_page_record_size size) o b in
    let same =
      eq_of_mul-eq-mul_right (single_file_page_record_size size) (omega arith) (i - 1) (j - 1)
        (omega (arith, i_at, j_at)) in
    ground (arith, i_nonzero, j_nonzero, same)

pub length-encode :
    (crc : Crc) (page : Page) (encoded : Bytes)
    → encode crc page ≡ ok encoded
    → length encoded ≡ 41 + length page.payload
unfolding encode laid_out
length-encode crc page encoded e =
    let h = encoded_header crc page in
    ap length (ap (λ r. elim r [ err k ↦ encoded | ok b ↦ b ]) (sym e))
    ∙ length-laid_out (to_be_bytes h.page_id) (to_be_bytes h.lsn) (to_be_bytes h.page_size)
        (to_be_bytes h.checksum) page.payload (length-be_bytes 8 h.page_id)
        (length-be_bytes 8 h.lsn) (length-be_bytes 8 h.page_size) (length-be_bytes 8 h.checksum)

pub is_page-IsStorable : (page : Page) → is_page page ≡ true → IsStorable page
is_page-IsStorable page h = ground (arith, h)

pub encode-seal : (crc : Crc) (page : Page) → encode crc (seal crc page) ≡ encode crc page
unfolding encode checksum_page
encode-seal crc page = refl

pub encrypt_page-seal :
    (encrypt : Cipher) (crc : Crc) (key nonce : Bytes) (page : Page)
    → encrypt_page encrypt crc key nonce (seal crc page) ≡ encrypt_page encrypt crc key nonce page
unfolding encrypt_page encode checksum_page
encrypt_page-seal encrypt crc key nonce page = refl

pub seal-IsSealed : (crc : Crc) (page : Page) → IsStorable page → IsSealed crc (seal crc page)
unfolding checksum_page
seal-IsSealed crc page storable = (storable, refl)
