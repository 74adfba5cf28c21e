-- ===== src/Storage/Tests.antt =====
-- Runs of the hybrid backend on a single file, and uses of its theorems.
use rnov_modular_db.Base.{
  length, ℕ, ◌≡◌, refl, sym, ap, ◌∙◌, true, none, some, List, [], ◌∷◌, arith, inl, inr, Bool-cases,
}
use rnov_modular_db.Common.{ok}
use rnov_modular_db.Collections.Order.{nat_order, same, same_iff}
use rnov_modular_db.Storage.Codec.{
  from_page_counter, encrypt_page, decrypt_page, encode, decode, page_associated_data,
  checksum_page, decode_header, validate_encoded_header, read_header_array, validate_payload,
}
use rnov_modular_db.Storage.Codec.Plain.{
  plain, plain_opens, plain-IsAuthentic, number_crc, number_crc_small,
}
use rnov_modular_db.Storage.SingleFile.{
  single_file, single_file_write, single_file_read, write_single_file_page, read_single_file_page,
  single_file_page_offset, next_page_counter, read_existing_page_counter, read_record,
}
use rnov_modular_db.Storage.SingleFile.Laws.{IsTagged, single_file-Keeps}
use rnov_modular_db.Storage.Page.{Page, header_new, id}
use rnov_modular_db.Storage.Memory
use rnov_modular_db.Storage.Memory.{MemoryBackend}
use rnov_modular_db.Storage.Disk.{StorageBackend, Keeps}
use rnov_modular_db.Storage.Status.{memory, disk, SyncStatus, SwitchDataMovement}
use rnov_modular_db.Storage.Hybrid.{
  HybridBackend, hybrid_start, attach_memory_to_disk, read_page, write_page, switch_active_target,
}
use rnov_modular_db.Storage.Hybrid.Coherent.{sealed, on_disk, IsCoherent}
use rnov_modular_db.Storage.Hybrid.Warmup.{warmup_pages}
use rnov_modular_db.Storage.Hybrid.Sync.{sync}
use rnov_modular_db.Storage.Hybrid.Attach.{IsKeyed, attach-IsCoherent}
use rnov_modular_db.Storage.Hybrid.Laws.{
  StoreCall, write, flush, switch, warmup, run, store, run-store, sync_durable, sync_enables_switch,
}

plain-IsTagged : IsTagged plain
plain-IsTagged key nonce aad message bytes e =
    let same_bytes = (plain_opens message bytes e).0 in omega (arith, ap length same_bytes)

-- a single file of pages of two bytes
abbrev file : StorageBackend
file = single_file plain plain number_crc 2 (some [])

file-Keeps : Keeps file
file-Keeps =
    single_file-Keeps plain plain number_crc plain-IsAuthentic plain-IsTagged number_crc_small 2
      (some [])

abbrev page : ℕ → ℕ → Page
page i lsn = record { header = header_new i lsn 2; payload = i ∷ lsn ∷ [] }

abbrev start : HybridBackend file
start = hybrid_start (Memory.new 2) []

start-IsCoherent : IsCoherent start
unfolding IsCoherent Memory.read_page
start-IsCoherent = (λ i p e k. ground (arith, e), λ i p e. ground (arith, e), λ t. refl)

-- page 1 is written twice, and moves to the disk in between
abbrev calls : List StoreCall
calls =
    write (page 1 5)
    ∷ write (page 2 6)
    ∷ flush
    ∷ switch disk
    ∷ write (page 1 7)
    ∷ switch memory
    ∷ warmup (2 ∷ 9 ∷ [])
    ∷ []

run-calls : (run calls start).0 ≡ ok tt
unfolding run write_page sync switch_active_target warmup_pages Memory.write_page Memory.read_page
    Memory.mark_clean single_file_write single_file_read write_single_file_page
    read_single_file_page single_file_page_offset next_page_counter read_existing_page_counter
    read_record from_page_counter encrypt_page decrypt_page encode decode page_associated_data
    checksum_page decode_header validate_encoded_header read_header_array validate_payload
run-calls = refl

run_read : read_page 1 (run calls start).1 ≡ ok (some (page 1 7))
unfolding run write_page sync switch_active_target warmup_pages read_page Memory.write_page
    Memory.read_page Memory.mark_clean single_file_write single_file_read write_single_file_page
    read_single_file_page single_file_page_offset next_page_counter read_existing_page_counter
    read_record from_page_counter encrypt_page decrypt_page encode decode page_associated_data
    checksum_page decode_header validate_encoded_header read_header_array validate_payload
run_read = refl

run-store_example :
    sealed number_crc (read_page 1 (run calls start).1)
    ≡ store number_crc calls (λ j. sealed number_crc (read_page j start)) 1
run-store_example = run-store file-Keeps calls start 1 start-IsCoherent run-calls

-- a backend with a dirty page
abbrev dirty : HybridBackend file
dirty = record start {
  memory_pages = record (Memory.new 2) {
    pages = (3, record { page = page 3 8; dirty = true; pin_count = 0 }) ∷ [];
  };
  dirty_pages = 3 ∷ [];
  lsn_status = record { memory_lsn = 8; disk_lsn = 0; last_mirrored_lsn = 0 };
}

abbrev memory_3 : MemoryBackend
memory_3 = dirty.memory_pages

memory_3-IsKeyed : IsKeyed memory_3
unfolding Memory.read_page
memory_3-IsKeyed i p h = elim (Bool-cases (same i 3)) [
  | inl e ↦
      sym (ap (λ o. elim o [ none ↦ id p | some x ↦ id x ]) (rw (e, Memory.read_page) at h))
      ∙ sym ((same_iff i 3).0 e)
  | inr e ↦ ground (arith, rw (e, Memory.read_page) at h)
]

attach_3 : attach_memory_to_disk {D = file} memory_3 [] ≡ ok dirty
unfolding attach_memory_to_disk
attach_3 = refl

attach-IsCoherent_example : IsCoherent dirty
attach-IsCoherent_example = attach-IsCoherent file memory_3 [] dirty memory_3-IsKeyed attach_3

dirty-IsCoherent : IsCoherent dirty
dirty-IsCoherent = attach-IsCoherent file memory_3 [] dirty memory_3-IsKeyed attach_3

abbrev flushed : SyncStatus
flushed = record { flushed_pages = 1; durable_pages = 1 }

sync_dirty : (sync dirty).0 ≡ ok flushed
unfolding sync Memory.read_page single_file_write single_file_read write_single_file_page
    read_single_file_page single_file_page_offset next_page_counter read_existing_page_counter
    read_record from_page_counter encrypt_page decrypt_page encode decode page_associated_data
    checksum_page decode_header validate_encoded_header read_header_array validate_payload
sync_dirty = refl

sync_durable_example : on_disk 3 (sync dirty).1 ≡ sealed number_crc (read_page 3 dirty)
sync_durable_example = sync_durable file-Keeps dirty flushed 3 dirty-IsCoherent sync_dirty

sync_enables_switch_example :
    (movement : SwitchDataMovement) × ((switch_active_target disk (sync dirty).1).0 ≡ ok movement)
sync_enables_switch_example = sync_enables_switch dirty flushed disk sync_dirty
