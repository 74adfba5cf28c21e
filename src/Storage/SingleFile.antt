-- ===== src/Storage/SingleFile.antt =====
-- crates/rnmdb-storage/src/lib.rs: pages in the file of `SingleFileBackend`. A file is taken as the
-- page records that start at its offsets; the bytes of a record's header, the superblocks and the
-- errors of the system are left out. A record is no longer than the place between two offsets, so
-- that records do not overlap.
pub mod Offsets
pub mod Laws
use rnov_modular_db.Base.{
  ℕ, ◌+◌, ◌-◌, ◌*◌, ◌^◌, Bool, true, not, ◌&&◌, Option, none, some, List, ltb, length, ◌==◌,
}
use rnov_modular_db.Common.{
  Result, ok, err, invalid_input, security, corruption, reject_if, ◌>>=◌, ◌>>◌,
}
use rnov_modular_db.Collections.Order.{nat_order}
use rnov_modular_db.Collections.BTreeMap
use rnov_modular_db.Collections.BTreeMap.{BTreeMap}
use rnov_modular_db.Security.Audit.{Bytes}
use rnov_modular_db.Security.Envelope.{Cipher, or_security}
use rnov_modular_db.Storage.Page.{Page, id}
use rnov_modular_db.Storage.Codec.{Crc, from_page_counter, encrypt_page, decrypt_page}
use rnov_modular_db.Storage.Disk.{StorageBackend}

-- a record: the counter of its header, and the ciphertext
pub record PageRecord : Type 0 where
  pub counter : ℕ
  pub ciphertext : Bytes

abbrev pub PageRecords : Type 0
PageRecords = BTreeMap ℕ PageRecord

-- what `read_single_file_page` and `single_file_page_record_size` allow a ciphertext
abbrev pub max_ciphertext_len : ℕ → ℕ
max_ciphertext_len page_size = 41 + page_size + 16

-- `SingleFileBackend::PAGE_RECORD_HEADER_LEN` is 16
abbrev pub single_file_page_record_size : ℕ → ℕ
single_file_page_record_size page_size = 16 + max_ciphertext_len page_size

-- a header of 36 bytes and two superblocks of 32
abbrev pub single_file_data_start : ℕ
single_file_data_start = 100

-- `single_file_page_offset`, with the start of the data as it always is
unfoldable pub single_file_page_offset : ℕ → ℕ → Result ℕ
single_file_page_offset page_id record_size =
    let offset = (page_id - 1) * record_size in
    reject_if (page_id == 0) invalid_input
    >> reject_if (not (ltb offset (2 ^ 64))) invalid_input
    >> reject_if (not (ltb (single_file_data_start + offset) (2 ^ 64))) invalid_input
    >> ok (single_file_data_start + offset)

unfoldable pub next_page_counter : Option ℕ → Result ℕ
next_page_counter none = ok 1
next_page_counter (some counter) = reject_if (counter == 2 ^ 32 - 1) security >> ok (counter + 1)

-- `read_existing_page_counter`
unfoldable pub read_existing_page_counter : ℕ → PageRecords → Option ℕ
read_existing_page_counter offset records = elim (BTreeMap.get offset records) [
  | none ↦ none
  | some found ↦ some found.counter
]

-- `read_single_file_page`, on the record that stands at the offset
unfoldable pub read_record : Cipher → Crc → ℕ → Bytes → ℕ → Option PageRecord → Result (Option Page)
read_record decrypt crc page_size key page_id none = ok none
read_record decrypt crc page_size key page_id (some found) = do
  fits ← reject_if (ltb (max_ciphertext_len page_size) (length found.ciphertext)) corruption
  page ←
      decrypt_page decrypt crc key (from_page_counter page_id found.counter) page_id
        found.ciphertext
  ok (some page)

unfoldable pub read_single_file_page :
    Cipher → Crc → ℕ → Bytes → ℕ → PageRecords → Result (Option Page)
unfolding single_file_page_offset read_record
read_single_file_page decrypt crc page_size key page_id records = do
  offset ← single_file_page_offset page_id (single_file_page_record_size page_size)
  read_record decrypt crc page_size key page_id (BTreeMap.get offset records)

unfoldable pub write_single_file_page :
    Cipher → Crc → ℕ → Bytes → Page → PageRecords → Result PageRecords
unfolding single_file_page_offset next_page_counter read_existing_page_counter
write_single_file_page encrypt crc page_size key page records = do
  offset ← single_file_page_offset (id page) (single_file_page_record_size page_size)
  counter ← next_page_counter (read_existing_page_counter offset records)
  ciphertext ← encrypt_page encrypt crc key (from_page_counter (id page) counter) page
  ok (BTreeMap.insert offset (record { counter = counter; ciphertext = ciphertext }) records)

-- `SingleFileBackend::page_key`
abbrev pub page_key : Option Bytes → Result Bytes
page_key = or_security

-- `SingleFileBackend::write_page`
unfoldable pub single_file_write :
    Cipher → Crc → ℕ → Option Bytes → Page → PageRecords → Result PageRecords
unfolding write_single_file_page
single_file_write encrypt crc page_size stored_key page records = do
  fits ← reject_if (not (length page.payload == page_size)) invalid_input
  key ← page_key stored_key
  write_single_file_page encrypt crc page_size key page records

-- `SingleFileBackend::read_page`
unfoldable pub single_file_read :
    Cipher → Crc → ℕ → Option Bytes → ℕ → PageRecords → Result (Option Page)
unfolding read_single_file_page
single_file_read decrypt crc page_size stored_key page_id records = do
  key ← page_key stored_key
  read_single_file_page decrypt crc page_size key page_id records

-- What holds of every value of the type `Page` of the source: its numbers have 64 bits, and it has a
-- payload, which is as long as the header says.
abbrev pub is_page : Page → Bool
is_page page =
    ltb page.header.page_id (2 ^ 64)
    && ltb page.header.lsn (2 ^ 64)
    && ltb 0 (length page.payload)
    && ltb (length page.payload) (2 ^ 64)
    && page.header.page_size == length page.payload

-- the state after a write that may have failed
abbrev pub written : Result PageRecords → PageRecords → Result (Unit {0}) × PageRecords
written (err e) records = (err e, records)
written (ok changed) records = (ok tt, changed)

-- `impl StorageBackend for SingleFileBackend`; a `sync` changes no record
abbrev pub single_file : Cipher → Cipher → Crc → ℕ → Option Bytes → StorageBackend
single_file encrypt decrypt crc page_size stored_key = record {
  state = PageRecords;
  read_page = single_file_read decrypt crc page_size stored_key;
  write_page = λ page records.
      written
        (reject_if (not (is_page page)) invalid_input
          >> single_file_write encrypt crc page_size stored_key page records)
        records;
  sync = λ records. (ok tt, records);
  writes_to_disk = true;
  crc = crc;
}
