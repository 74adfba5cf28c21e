-- ===== src/Storage/Hybrid.antt =====
-- crates/rnmdb-storage/src/lib.rs: `HybridBackend`: its pages, reads, writes and switches. Its locks
-- are not modelled: a call runs to its end before the next begins, and no lock is poisoned.
-- end before the next begins, and no lock is poisoned.
pub mod Coherent
pub mod Writes
pub mod Warmup
pub mod Warmed
pub mod Sync
pub mod Clean
pub mod Synced
pub mod Laws
pub mod Attach
use rnov_modular_db.Base.{
  ℕ, ◌+◌, ◌-◌, ◌*◌, ◌^◌, ◌≡◌, Bool, true, false, not, ◌&&◌, Option, none, some, List, [], ◌∷◌,
  if◌then◌else◌, leb, ltb, length, is_empty, ◌==◌,
}
use rnov_modular_db.Common.{Result, ok, err, invalid_input, ◌>>=◌}
use rnov_modular_db.Collections.Order.{nat_order}
use rnov_modular_db.Collections.BTreeSet
use rnov_modular_db.Collections.BTreeSet.{BTreeSet}
use rnov_modular_db.Storage.Page.{Page, id}
use rnov_modular_db.Storage.Memory
use rnov_modular_db.Storage.Memory.{MemoryBackend}
use rnov_modular_db.Storage.Disk.{StorageBackend}
use rnov_modular_db.Storage.Status.{
  HybridSyncTarget, memory, disk, HybridState, hybrid_syncing, hybrid_ready, SwitchDataMovement,
  full_data_movement, HybridLsnStatus, HybridSyncStatus, switch_data_movement, max_lsn,
  saturating_mul,
}

pub record HybridBackend (D : StorageBackend) : Type 0 where
  pub memory_pages : MemoryBackend
  pub disk_pages : D.state
  pub active_target : HybridSyncTarget
  pub dirty_pages : BTreeSet ℕ
  pub mirrored_pages : BTreeSet ℕ
  pub lsn_status : HybridLsnStatus

-- `?` before the rest of a body that changes the state
infixl 5 ◌and_then◌
abbrev pub ◌and_then◌ : {S A B : Type 0} → Result A × S → (A → S → Result B × S) → Result B × S
outcome and_then rest = elim outcome.0 [ err e ↦ (err e, outcome.1) | ok a ↦ rest a outcome.1 ]

module _ {D : StorageBackend} where
  -- the backend that `HybridBackend::new` returns
  abbrev pub hybrid_start : MemoryBackend → D.state → HybridBackend D
  hybrid_start pages disk_state = record {
    memory_pages = pages;
    disk_pages = disk_state;
    active_target = memory;
    dirty_pages = [];
    mirrored_pages = [];
    lsn_status = record { memory_lsn = 0; disk_lsn = 0; last_mirrored_lsn = 0 };
  }

  -- `HybridBackend::new`
  unfoldable pub hybrid_new : MemoryBackend → D.state → Result (HybridBackend D)
  hybrid_new pages disk_state =
      if not D.writes_to_disk then err invalid_input else ok (hybrid_start pages disk_state)

  -- one round of the loop of `attach_memory_to_disk`, with the position that is stored after it
  abbrev pub with_page : Page → HybridBackend D → HybridBackend D
  with_page page h = record h {
    dirty_pages = BTreeSet.insert (id page) h.dirty_pages;
    lsn_status = record (h.lsn_status) {
      memory_lsn = max_lsn h.lsn_status.memory_lsn page.header.lsn;
    };
  }

  unfoldable pub attach_pages : List Page → HybridBackend D → HybridBackend D
  attach_pages [] h = h
  attach_pages (page ∷ pages) h = attach_pages pages (with_page page h)

  -- `attach_memory_to_disk`, without the thread that it starts, which calls `sync`
  unfoldable pub attach_memory_to_disk : MemoryBackend → D.state → Result (HybridBackend D)
  unfolding hybrid_new attach_pages
  attach_memory_to_disk pages disk_state = do
    h ← hybrid_new pages disk_state
    ok (attach_pages (Memory.snapshot_pages pages) h)

  -- the calls of the two parts
  abbrev pub write_memory : Page → HybridBackend D → Result (Unit {0}) × HybridBackend D
  write_memory page h =
      let written = Memory.write_page page h.memory_pages in
      (written.0, record h { memory_pages = written.1 })

  abbrev pub write_disk : Page → HybridBackend D → Result (Unit {0}) × HybridBackend D
  write_disk page h =
      let written = D.write_page page h.disk_pages in
      (written.0, record h { disk_pages = written.1 })

  abbrev pub mark_clean : ℕ → HybridBackend D → HybridBackend D
  mark_clean i h = record h { memory_pages = Memory.mark_clean i h.memory_pages }

  abbrev pub insert_dirty : ℕ → HybridBackend D → HybridBackend D
  insert_dirty i h = record h { dirty_pages = BTreeSet.insert i h.dirty_pages }

  abbrev pub remove_dirty : ℕ → HybridBackend D → HybridBackend D
  remove_dirty i h = record h { dirty_pages = BTreeSet.remove i h.dirty_pages }

  abbrev pub insert_mirrored : ℕ → HybridBackend D → HybridBackend D
  insert_mirrored i h = record h { mirrored_pages = BTreeSet.insert i h.mirrored_pages }

  abbrev pub advance_disk_lsn : ℕ → HybridBackend D → HybridBackend D
  advance_disk_lsn lsn h = record h {
    lsn_status = record (h.lsn_status) {
      disk_lsn = max_lsn h.lsn_status.disk_lsn lsn;
      last_mirrored_lsn = max_lsn h.lsn_status.last_mirrored_lsn lsn;
    };
  }

  abbrev pub advance_memory_lsn : ℕ → HybridBackend D → HybridBackend D
  advance_memory_lsn lsn h = record h {
    lsn_status = record (h.lsn_status) { memory_lsn = max_lsn h.lsn_status.memory_lsn lsn };
  }

  unfoldable pub write_memory_active_page :
      ℕ → Page → HybridBackend D → Result (Unit {0}) × HybridBackend D
  write_memory_active_page i page h =
      write_memory page h and_then (λ _ g. (ok tt, insert_dirty i g))

  unfoldable pub write_disk_active_page :
      ℕ → ℕ → Page → HybridBackend D → Result (Unit {0}) × HybridBackend D
  write_disk_active_page i lsn page h =
      write_disk page h
      and_then (λ _ f. write_memory page f)
      and_then (λ _ g. (ok tt, advance_disk_lsn lsn (insert_mirrored i (mark_clean i g))))

  -- the match of `write_page` on the active target
  abbrev pub write_active :
      HybridSyncTarget → Page → HybridBackend D → Result (Unit {0}) × HybridBackend D
  write_active memory page h = write_memory_active_page (id page) page h
  write_active disk page h = write_disk_active_page (id page) page.header.lsn page h

  -- `StorageBackend::write_page`
  unfoldable pub write_page : Page → HybridBackend D → Result (Unit {0}) × HybridBackend D
  unfolding write_memory_active_page write_disk_active_page
  write_page page h =
      write_active h.active_target page h
      and_then (λ _ g. (ok tt, advance_memory_lsn page.header.lsn g))

  -- `StorageBackend::read_page`
  unfoldable pub read_page : ℕ → HybridBackend D → Result (Option Page)
  read_page i h = elim h.active_target [
    | memory ↦ elim (Memory.read_page i h.memory_pages) [
      | some page ↦ ok (some page)
      | none ↦ D.read_page i h.disk_pages
    ]
    | disk ↦ do
      found ← D.read_page i h.disk_pages
      elim found [ some page ↦ ok (some page) | none ↦ ok (Memory.read_page i h.memory_pages) ]
  ]

  unfoldable pub sync_status : HybridBackend D → HybridSyncStatus
  sync_status h =
      let count = length h.dirty_pages in
      let bytes = saturating_mul count h.memory_pages.page_size in
      record {
        state = if count == 0 then hybrid_ready else hybrid_syncing;
        active_target = h.active_target;
        dirty_pages = count;
        dirty_bytes = bytes;
        mirrored_pages = length h.mirrored_pages;
        estimated_flush_bytes = bytes;
        memory_lsn = h.lsn_status.memory_lsn;
        disk_lsn = h.lsn_status.disk_lsn;
        last_mirrored_lsn = h.lsn_status.last_mirrored_lsn;
      }

  -- `switch_active_target`, on the movement that it has worked out
  abbrev pub switch_by :
      SwitchDataMovement
      → HybridSyncTarget
      → HybridBackend D
      → Result SwitchDataMovement × HybridBackend D
  switch_by full_data_movement target h = (err invalid_input, h)
  switch_by movement target h = (ok movement, record h { active_target = target })

  unfoldable pub switch_active_target :
      HybridSyncTarget → HybridBackend D → Result SwitchDataMovement × HybridBackend D
  unfolding switch_data_movement sync_status
  switch_active_target target h = switch_by (switch_data_movement (sync_status h) target) target h
