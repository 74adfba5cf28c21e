-- ===== src/Storage/Disk.antt =====
-- crates/rnmdb-storage/src/lib.rs: the trait `StorageBackend`, as the hybrid backend uses it on
-- its disk. A call may fail, and then nothing is known of the state that it leaves.
use rnov_modular_db.Base.{ℕ, ◌≡◌, ◌≢◌, Bool, Option, some}
use rnov_modular_db.Common.{Result, ok}
use rnov_modular_db.Storage.Page.{Page, id}
use rnov_modular_db.Storage.Codec.{Crc}
use rnov_modular_db.Storage.Codec.Laws.{seal}

pub record StorageBackend : Type 1 where
  pub state : Type 0
  pub read_page : ℕ → state → Result (Option Page)
  pub write_page : Page → state → Result (Unit {0}) × state
  pub sync : state → Result (Unit {0}) × state
  -- `capabilities().contains(StorageCapability::WRITES_TO_DISK)`
  pub writes_to_disk : Bool
  -- `PAGE_CRC64`, with which pages are encoded
  pub crc : Crc

-- What a backend promises: a page that is written is read back as `PageCodec` encodes it, with the
-- version and the checksum set, and nothing else changes.
pub record Keeps (D : StorageBackend) : Type 0 where
  pub read_id : (i : ℕ) (p : Page) (s : D.state) → D.read_page i s ≡ ok (some p) → id p ≡ i
  pub read_sealed :
      (i : ℕ) (p : Page) (s : D.state) → D.read_page i s ≡ ok (some p) → seal D.crc p ≡ p
  pub read_written :
      (p : Page) (s : D.state)
      → (D.write_page p s).0 ≡ ok tt
      → D.read_page (id p) (D.write_page p s).1 ≡ ok (some (seal D.crc p))
  pub read_other :
      (i : ℕ) (p : Page) (s : D.state)
      → (D.write_page p s).0 ≡ ok tt
      → i ≢ id p
      → D.read_page i (D.write_page p s).1 ≡ D.read_page i s
  pub read_synced :
      (i : ℕ) (s : D.state) → (D.sync s).0 ≡ ok tt → D.read_page i (D.sync s).1 ≡ D.read_page i s
