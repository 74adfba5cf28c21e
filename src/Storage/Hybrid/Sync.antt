-- ===== src/Storage/Hybrid/Sync.antt =====
-- crates/rnmdb-storage/src/lib.rs: writing the dirty pages to the disk.
use rnov_modular_db.Base.{ℕ, Option, none, some, List, [], ◌∷◌, length}
use rnov_modular_db.Common.{Result, ok}
use rnov_modular_db.Collections.Order.{nat_order}
use rnov_modular_db.Storage.Page.{Page}
use rnov_modular_db.Storage.Memory
use rnov_modular_db.Storage.Disk.{StorageBackend}
use rnov_modular_db.Storage.Status.{SyncStatus}
use rnov_modular_db.Storage.Hybrid.{
  HybridBackend, ◌and_then◌, write_disk, mark_clean, remove_dirty, insert_mirrored,
}

module _ {D : StorageBackend} where
  -- `mirror_pending_page`, on the page that memory holds
  unfoldable pub mirror_page : Option Page → HybridBackend D → Result (Unit {0}) × HybridBackend D
  mirror_page none h = (ok tt, h)
  mirror_page (some page) h = write_disk page h

  -- `mirror_pending_pages`
  unfoldable pub mirror_pending_pages :
      List ℕ → HybridBackend D → Result (Unit {0}) × HybridBackend D
  unfolding mirror_page
  mirror_pending_pages [] h = (ok tt, h)
  mirror_pending_pages (i ∷ pending) h =
      mirror_page (Memory.read_page i h.memory_pages) h
      and_then (λ _ g. mirror_pending_pages pending g)

  -- `mark_pending_pages_mirrored`
  unfoldable pub mark_pending_pages_mirrored : List ℕ → HybridBackend D → HybridBackend D
  mark_pending_pages_mirrored [] h = h
  mark_pending_pages_mirrored (i ∷ pending) h =
      mark_pending_pages_mirrored pending (mark_clean i (insert_mirrored i (remove_dirty i h)))

  abbrev pub advance_synced_lsns : HybridBackend D → HybridBackend D
  advance_synced_lsns h = record h {
    lsn_status = record (h.lsn_status) {
      disk_lsn = h.lsn_status.memory_lsn;
      last_mirrored_lsn = h.lsn_status.memory_lsn;
    };
  }

  abbrev pub sync_disk : HybridBackend D → Result (Unit {0}) × HybridBackend D
  sync_disk h = let synced = D.sync h.disk_pages in (synced.0, record h { disk_pages = synced.1 })

  -- the end of `sync`; the mode of a `SyncStatus` is that of the backend
  unfoldable pub sync_report : List ℕ → HybridBackend D → Result SyncStatus × HybridBackend D
  unfolding mark_pending_pages_mirrored
  sync_report pending h =
      let last = advance_synced_lsns (mark_pending_pages_mirrored pending h) in
      (
        ok (record { flushed_pages = length pending; durable_pages = length last.mirrored_pages }),
        last,
      )

  -- `StorageBackend::sync`
  unfoldable pub sync : HybridBackend D → Result SyncStatus × HybridBackend D
  unfolding mirror_pending_pages sync_report
  sync h =
      mirror_pending_pages h.dirty_pages h
      and_then (λ _ g. sync_disk g)
      and_then (λ _ g. sync_report h.dirty_pages g)
