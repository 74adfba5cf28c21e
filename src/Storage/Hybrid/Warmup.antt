-- ===== src/Storage/Hybrid/Warmup.antt =====
-- crates/rnmdb-storage/src/lib.rs: loading pages from the disk into memory.
use rnov_modular_db.Base.{
  ℕ, Bool, true, false, Option, none, some, List, [], ◌∷◌, if◌then◌else◌, length, ◌==◌,
}
use rnov_modular_db.Common.{Result, ok, err, invalid_input}
use rnov_modular_db.Collections.Order.{nat_order}
use rnov_modular_db.Collections.BTreeSet
use rnov_modular_db.Collections.BTreeSet.{BTreeSet}
use rnov_modular_db.Storage.Page.{Page}
use rnov_modular_db.Storage.Disk.{StorageBackend}
use rnov_modular_db.Storage.Status.{
  memory, HybridWarmupReport, HybridWarmupProgress, no_progress, record_page,
}
use rnov_modular_db.Storage.Hybrid.{
  HybridBackend, ◌and_then◌, write_memory, mark_clean, remove_dirty, insert_mirrored,
  advance_disk_lsn, advance_memory_lsn, switch_active_target,
}

module _ {D : StorageBackend} where
  -- the first of the requested pages that is dirty, if any
  unfoldable pub has_dirty : BTreeSet ℕ → HybridBackend D → Bool
  has_dirty [] h = false
  has_dirty (i ∷ requested) h =
      let more = has_dirty requested h in if BTreeSet.contains i h.dirty_pages then true else more

  unfoldable pub ensure_warmup_pages_are_clean : BTreeSet ℕ → HybridBackend D → Result (Unit {0})
  unfolding has_dirty
  ensure_warmup_pages_are_clean requested h =
      if has_dirty requested h then err invalid_input else ok tt

  unfoldable pub store_warmed_page :
      ℕ → Page → HybridBackend D → Result (Unit {0}) × HybridBackend D
  store_warmed_page i page h =
      write_memory page h
      and_then (λ _ g. (ok tt, insert_mirrored i (remove_dirty i (mark_clean i g))))

  -- `warmup_page`, on what the disk answers for the page
  unfoldable pub warmup_found :
      ℕ → Result (Option Page) → HybridBackend D → Result (Option ℕ) × HybridBackend D
  unfolding store_warmed_page
  warmup_found i (err e) h = (err e, h)
  warmup_found i (ok none) h = (ok none, h)
  warmup_found i (ok (some page)) h =
      store_warmed_page i page h and_then (λ _ g. (ok (some page.header.lsn), g))

  abbrev pub warmup_page : ℕ → HybridBackend D → Result (Option ℕ) × HybridBackend D
  warmup_page i h = warmup_found i (D.read_page i h.disk_pages) h

  -- the loop of `warmup_pages`
  unfoldable pub warmup_loop :
      BTreeSet ℕ
      → HybridWarmupProgress
      → HybridBackend D
      → Result HybridWarmupProgress × HybridBackend D
  unfolding warmup_found
  warmup_loop [] progress h = (ok progress, h)
  warmup_loop (i ∷ requested) progress h =
      warmup_page i h and_then (λ lsn g. warmup_loop requested (record_page lsn progress) g)

  abbrev pub advance_warmup_lsns : HybridWarmupProgress → HybridBackend D → HybridBackend D
  advance_warmup_lsns progress h =
      let lsn = progress.max_warmed_lsn in
      if progress.warmed_pages == 0 then h else advance_memory_lsn lsn (advance_disk_lsn lsn h)

  -- the end of `warmup_pages`
  abbrev pub warmup_report :
      BTreeSet ℕ
      → HybridWarmupProgress
      → HybridBackend D
      → Result HybridWarmupReport × HybridBackend D
  warmup_report requested progress h =
      let last = advance_warmup_lsns progress h in
      (
        ok (record {
          requested_pages = length requested;
          warmed_pages = progress.warmed_pages;
          missing_pages = progress.missing_pages;
          memory_resident_pages = length last.mirrored_pages;
        }),
        last,
      )

  -- `warmup_pages`
  unfoldable pub warmup_pages :
      List ℕ → HybridBackend D → Result HybridWarmupReport × HybridBackend D
  unfolding ensure_warmup_pages_are_clean warmup_loop
  warmup_pages page_ids h =
      let requested = BTreeSet.collect page_ids in
      (ensure_warmup_pages_are_clean requested h, h)
      and_then (λ _ g. warmup_loop requested no_progress g)
      and_then warmup_report requested

  -- `promote_working_set_to_memory`
  unfoldable pub promote_working_set_to_memory :
      List ℕ → HybridBackend D → Result HybridWarmupReport × HybridBackend D
  unfolding warmup_pages switch_active_target
  promote_working_set_to_memory page_ids h =
      warmup_pages page_ids h
      and_then (λ report g. switch_active_target memory g and_then (λ _ f. (ok report, f)))
