-- ===== src/Storage/SingleFile/Laws.antt =====
-- crates/rnmdb-storage/src/lib.rs: the single file gives back the pages that are written to it.
use rnov_modular_db.Base.{
  ℕ, ◌+◌, ◌^◌, ◌≤◌, ◌<◌, ◌≡◌, ◌≢◌, refl, sym, ap, ◌∙◌, inl, inr, true, false, not, Option, none,
  some, length, ltb, Option-cases, ◌==◌, arith,
}
use rnov_modular_db.Common.{
  Result, Result-cases, ok, err, invalid_input, corruption, reject_if, ◌>>=◌, ◌>>◌,
}
use rnov_modular_db.Collections.Order.{nat_order}
use rnov_modular_db.Collections.BTreeMap
use rnov_modular_db.Collections.BTreeMap.{BTreeMap, get-insert_self, get-insert_ne}
use rnov_modular_db.Security.Audit.{Bytes}
use rnov_modular_db.Security.Envelope.{Cipher, or_security}
use rnov_modular_db.Storage.Page.{Page, id}
use rnov_modular_db.Storage.Codec.{
  Crc, page_associated_data, from_page_counter, encode, encrypt_page, decrypt_page,
}
use rnov_modular_db.Storage.Codec.Laws.{seal}
use rnov_modular_db.Storage.Codec.Sealed.{and_then_ok, or_security_ok, IsAuthentic, decrypt_iff}
use rnov_modular_db.Storage.Disk.{Keeps}
use rnov_modular_db.Storage.SingleFile.Offsets.{
  guarded, offset_injective, length-encode, is_page-IsStorable, encrypt_page-seal, seal-IsSealed,
}
use rnov_modular_db.Storage.SingleFile.{
  PageRecord, PageRecords, max_ciphertext_len, single_file_page_record_size,
  single_file_page_offset, next_page_counter, read_existing_page_counter, read_record,
  read_single_file_page, write_single_file_page, page_key, single_file_write, single_file_read,
  is_page, written, single_file,
}

-- The tag that is added has 16 bytes.
abbrev pub IsTagged : Cipher → Type 0
IsTagged encrypt =
    (key nonce aad message sealed : Bytes)
    → encrypt key nonce aad message ≡ some sealed
    → length sealed ≤ length message + 16

module _ (encrypt decrypt : Cipher) (crc : Crc) (authentic : IsAuthentic encrypt decrypt)
    (tagged : IsTagged encrypt) (small : (bytes : Bytes) → crc bytes < 2 ^ 64) (size : ℕ)
    (stored_key : Option Bytes) where
  length-encrypt_page :
      (key nonce : Bytes) (page : Page) (ciphertext : Bytes)
      → encrypt_page encrypt crc key nonce page ≡ ok ciphertext
      → length ciphertext ≤ max_ciphertext_len (length page.payload)
  unfolding encrypt_page
  length-encrypt_page key nonce page ciphertext e =
      let seal_bytes : Bytes → Result Bytes =
        λ encoded. or_security (encrypt key nonce (page_associated_data (id page)) encoded) in
      let (encoded, is, e1) = and_then_ok (encode crc page) seal_bytes ciphertext e in
      omega (
        arith,
        length-encode crc page encoded is,
        tagged key nonce (page_associated_data (id page)) encoded ciphertext (
            or_security_ok (encrypt key nonce (page_associated_data (id page)) encoded) ciphertext
              e1),
      )

  -- The record that a write puts into the file.
  abbrev Inserted : Page → Bytes → PageRecords → PageRecords → Type 0
  Inserted page key before after =
      (offset : ℕ) × (counter : ℕ) × (ciphertext : Bytes) × (single_file_page_offset (id page)
          (single_file_page_record_size size)
        ≡ ok offset)
      × (encrypt_page encrypt crc key (from_page_counter (id page) counter) page ≡ ok ciphertext)
      × (after
          ≡ BTreeMap.insert offset (record { counter = counter; ciphertext = ciphertext }) before)

  write_single_file_page-Inserted :
      (page : Page) (key : Bytes) (before after : PageRecords)
      → write_single_file_page encrypt crc size key page before ≡ ok after
      → Inserted page key before after
  unfolding write_single_file_page
  write_single_file_page-Inserted page key before after e =
      let insert_at : ℕ → ℕ → Bytes → Result PageRecords = λ offset counter ciphertext.
        ok
          (BTreeMap.insert offset (record { counter = counter; ciphertext = ciphertext }) before) in
      let encrypt_at : ℕ → ℕ → Result PageRecords = λ offset counter.
        encrypt_page encrypt crc key (from_page_counter (id page) counter) page
        >>= insert_at offset counter in
      let count_at : ℕ → Result PageRecords = λ offset.
        next_page_counter (read_existing_page_counter offset before) >>= encrypt_at offset in
      let (offset, at, e1) =
        and_then_ok (single_file_page_offset (id page) (single_file_page_record_size size)) count_at
          after e in
      let (counter, counted, e2) =
        and_then_ok (next_page_counter (read_existing_page_counter offset before))
          (encrypt_at offset) after e1 in
      let (ciphertext, encrypted, e3) =
        and_then_ok (encrypt_page encrypt crc key (from_page_counter (id page) counter) page)
          (insert_at offset counter) after e2 in
      (
        offset,
        counter,
        ciphertext,
        at,
        encrypted,
        ap (λ r. elim r [ err k ↦ after | ok m ↦ m ]) (sym e3),
      )

  -- What a write that succeeds has done.
  abbrev Stored : Page → Bytes → PageRecords → PageRecords → Type 0
  Stored page key before after =
      (stored_key ≡ some key)
      × (is_page page ≡ true)
      × (length page.payload ≡ size)
      × Inserted page key before after

  single_file_write-Stored :
      (page : Page) (before after : PageRecords)
      → (reject_if (not (is_page page)) invalid_input
          >> single_file_write encrypt crc size stored_key page before)
        ≡ ok after
      → (key : Bytes) × Stored page key before after
  unfolding single_file_write
  single_file_write-Stored page before after e =
      let (a_page, e1) =
        guarded (not (is_page page)) invalid_input
          (single_file_write encrypt crc size stored_key page before) after e in
      let write_with : Bytes → Result PageRecords =
        λ key. write_single_file_page encrypt crc size key page before in
      let (fits, e2) =
        guarded (not (length page.payload == size)) invalid_input
          (page_key stored_key >>= write_with) after e1 in
      let (key, has_key, e3) = and_then_ok (page_key stored_key) write_with after e2 in
      (
        key,
        (
          or_security_ok stored_key key has_key,
          ground (arith, a_page),
          ground (arith, fits),
          write_single_file_page-Inserted page key before after e3,
        ),
      )

  written_ok :
      (r : Result PageRecords) (before : PageRecords)
      → (written r before).0 ≡ ok tt
      → (after : PageRecords) × (r ≡ ok after) × ((written r before).1 ≡ after)
  written_ok (ok after) before e = (after, refl, refl)
  written_ok (err k) before e = ground (arith, e)

  reads :
      (page_id : ℕ) (key : Bytes) (offset : ℕ) (found : Option PageRecord) (records : PageRecords)
      → stored_key ≡ some key
      → single_file_page_offset page_id (single_file_page_record_size size) ≡ ok offset
      → BTreeMap.get offset records ≡ found
      → single_file_read decrypt crc size stored_key page_id records
        ≡ read_record decrypt crc size key page_id found
  unfolding single_file_read read_single_file_page
  reads page_id key offset found records k at is =
      rw (single_file_read, k, read_single_file_page, at, is) refl

  -- A page that was written is read as it was encoded.
  single_file_read-Stored :
      (page : Page) (key : Bytes) (before after : PageRecords)
      → Stored page key before after
      → single_file_read decrypt crc size stored_key (id page) after ≡ ok (some (seal crc page))
  unfolding read_record
  single_file_read-Stored page key before after
        (k, a_page, fits, (offset, counter, ciphertext, at, encrypted, is)) =
      let nonce = from_page_counter (id page) counter in
      let here : BTreeMap.get offset after
          ≡ some (record { counter = counter; ciphertext = ciphertext }) =
        ap (BTreeMap.get offset) is ∙ get-insert_self offset _ before in
      let opens =
        (decrypt_iff encrypt decrypt crc authentic small key nonce (id page) ciphertext
            (seal crc page)).1
          (
            encrypt_page-seal encrypt crc key nonce page ∙ encrypted,
            seal-IsSealed crc page (is_page-IsStorable page a_page),
            refl,
          ) in
      let short : ltb (max_ciphertext_len size) (length ciphertext) ≡ false =
        ground (arith, length-encrypt_page key nonce page ciphertext encrypted, fits) in
      reads (id page) key offset _ after k at here ∙ rw (read_record, short, opens) refl

  -- A page that is read has its id, and the version and the checksum set.
  read_is :
      (page_id : ℕ) (page : Page) (records : PageRecords)
      → single_file_read decrypt crc size stored_key page_id records ≡ ok (some page)
      → (id page ≡ page_id) × (seal crc page ≡ page)
  unfolding single_file_read read_single_file_page read_record
  read_is page_id page records e =
      let with_key : Bytes → Result (Option Page) =
        λ key. read_single_file_page decrypt crc size key page_id records in
      let (key, _, e1) = and_then_ok (page_key stored_key) with_key (some page) e in
      let read_at : ℕ → Result (Option Page) =
        λ offset. read_record decrypt crc size key page_id (BTreeMap.get offset records) in
      let (offset, _, e2) =
        and_then_ok (single_file_page_offset page_id (single_file_page_record_size size)) read_at
          (some page) e1 in
      elim (Option-cases (BTreeMap.get offset records)) [
        | inl absent ↦
            ground (arith, sym (ap (read_record decrypt crc size key page_id) absent) ∙ e2)
        | inr (found, is) ↦
            let nonce = from_page_counter page_id found.counter in
            let opened = decrypt_page decrypt crc key nonce page_id found.ciphertext in
            let found_page : Page → Result (Option Page) = λ p. ok (some p) in
            let decrypted : Unit {0} → Result (Option Page) = λ _. opened >>= found_page in
            let (_, _, e3) =
              and_then_ok
                (reject_if (ltb (max_ciphertext_len size) (length found.ciphertext)) corruption)
                decrypted (some page)
                (sym (ap (read_record decrypt crc size key page_id) is) ∙ e2) in
            let (p, is_opened, e4) = and_then_ok opened found_page (some page) e3 in
            let same : p ≡ page =
              ap (λ r. elim r [ err k ↦ p | ok none ↦ p | ok (some q) ↦ q ]) e4 in
            let (_, sealed, same_id) =
              (decrypt_iff encrypt decrypt crc authentic small key nonce page_id found.ciphertext
                  page).0
                (is_opened ∙ ap ok same) in
            (same_id, sym sealed.1)
      ]

  other_read-Stored :
      (i : ℕ) (page : Page) (key : Bytes) (before after : PageRecords)
      → Stored page key before after
      → i ≢ id page
      → single_file_read decrypt crc size stored_key i after
        ≡ single_file_read decrypt crc size stored_key i before
  unfolding single_file_read read_single_file_page
  other_read-Stored i page key before after
        (k, a_page, fits, (offset, counter, ciphertext, at, encrypted, is)) other =
      elim (Result-cases (single_file_page_offset i (single_file_page_record_size size))) [
        | inr (e, refused) ↦ rw (single_file_read, k, read_single_file_page, refused) refl
        | inl (mine, there) ↦
            let differs : mine ≢ offset =
              λ e. other (offset_injective size i (id page) offset (there ∙ ap ok e) at) in
            let entry = ap (BTreeMap.get mine) is ∙ get-insert_ne mine offset _ before differs in
            reads i key mine _ after k there entry ∙ sym (reads i key mine _ before k there refl)
      ]

  pub single_file-Keeps : Keeps (single_file encrypt decrypt crc size stored_key)
  single_file-Keeps = record {
    read_id = λ i p s e. (read_is i p s e).0;
    read_sealed = λ i p s e. (read_is i p s e).1;
    read_written = λ p s w.
        let (after, done, left) = written_ok (_) s w in
        let (key, stored) = single_file_write-Stored p s after done in
        ap (single_file_read decrypt crc size stored_key (id p)) left
        ∙ single_file_read-Stored p key s after stored;
    read_other = λ i p s w other.
        let (after, done, left) = written_ok (_) s w in
        let (key, stored) = single_file_write-Stored p s after done in
        ap (single_file_read decrypt crc size stored_key i) left
        ∙ other_read-Stored i p key s after stored other;
    read_synced = λ i s w. refl;
  }
