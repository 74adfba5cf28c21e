-- ===== src/Storage/Hybrid/Clean.antt =====
-- crates/rnmdb-storage/src/lib.rs: the pages that are dirty after `sync`.
use rnov_modular_db.Base.{
  ℕ, ◌≡◌, refl, sym, ap, ◌∙◌, Bool, true, false, not, ◌&&◌, Option, none, some, List, [], ◌∷◌,
  arith,
}
use rnov_modular_db.Common.{Result, ok}
use rnov_modular_db.Collections.Order.{nat_order, same_iff}
use rnov_modular_db.Collections.BTreeSet
use rnov_modular_db.Collections.BTreeSet.{BTreeSet, contains-remove}
use rnov_modular_db.Storage.Memory.Laws.{read_page-mark_clean}
use rnov_modular_db.Storage.Page.{Page}
use rnov_modular_db.Storage.Disk.{StorageBackend}
use rnov_modular_db.Storage.Status.{SyncStatus}
use rnov_modular_db.Storage.Hybrid.{
  HybridBackend, ◌and_then◌, mark_clean, remove_dirty, insert_mirrored,
}
use rnov_modular_db.Storage.Hybrid.Coherent.{and_then_ok, and_then-holds, in_memory, is_dirty}
use rnov_modular_db.Storage.Hybrid.Sync.{
  mirror_page, mirror_pending_pages, mark_pending_pages_mirrored, sync_disk, sync_report, sync,
}

dirty_left :
    (j i : ℕ) (pending dirty : List ℕ)
    → (not (BTreeSet.contains j pending) && BTreeSet.contains j (BTreeSet.remove i dirty))
      ≡ (not (BTreeSet.contains j (i ∷ pending)) && BTreeSet.contains j dirty)
dirty_left j i pending dirty = ground (arith, contains-remove j i dirty)

pub none_dirty : (dirty : List ℕ) → ((i : ℕ) → BTreeSet.contains i dirty ≡ false) → dirty ≡ []
none_dirty [] h = refl
none_dirty (i ∷ dirty) h = ground (arith, h i, (same_iff i i).1 refl)

pub never_both : (b : Bool) → (not b && b) ≡ false
never_both true = refl
never_both false = refl

module _ {D : StorageBackend} where
  -- What `mark_pending_pages_mirrored` leaves as it is, and the pages that stay dirty.
  abbrev pub Marked : List ℕ → HybridBackend D → HybridBackend D → Type 0
  Marked pending h g =
      ((i : ℕ) → in_memory i g ≡ in_memory i h)
      × (g.disk_pages ≡ h.disk_pages)
      × ((i : ℕ) → is_dirty i g ≡ (not (BTreeSet.contains i pending) && is_dirty i h))
      × (g.lsn_status ≡ h.lsn_status)

  pub mark_pending-Marked :
      (pending : List ℕ) (h : HybridBackend D)
      → Marked pending h (mark_pending_pages_mirrored pending h)
  unfolding mark_pending_pages_mirrored
  mark_pending-Marked [] h = (λ i. refl, refl, λ i. refl, refl)
  mark_pending-Marked (i ∷ pending) h =
      let next = mark_clean i (insert_mirrored i (remove_dirty i h)) in
      let further = mark_pending-Marked pending next in
      (
        λ j. further.0 j ∙ read_page-mark_clean j i h.memory_pages,
        further.1,
        λ j. further.2 j ∙ dirty_left j i pending h.dirty_pages,
        further.3,
      )

  mirror_page-dirty :
      (found : Option Page) (h : HybridBackend D)
      → (mirror_page found h).1.dirty_pages ≡ h.dirty_pages
  unfolding mirror_page
  mirror_page-dirty none h = refl
  mirror_page-dirty (some page) h = refl

  -- Writing the pages to the disk leaves the set of dirty pages as it is.
  mirror_pending_pages-dirty :
      (pending : List ℕ) (h : HybridBackend D)
      → (mirror_pending_pages pending h).1.dirty_pages ≡ h.dirty_pages
  unfolding mirror_pending_pages
  mirror_pending_pages-dirty [] h = refl
  mirror_pending_pages-dirty (i ∷ pending) h =
      let found = in_memory i h in
      let rest : Unit {0} → HybridBackend D → Result (Unit {0}) × HybridBackend D =
        λ _ g. mirror_pending_pages pending g in
      and_then-holds (λ g. g.dirty_pages ≡ h.dirty_pages) (mirror_page found h) rest
        (λ e w. mirror_page-dirty found h)
        (λ _ w.
          mirror_pending_pages-dirty pending (mirror_page found h).1 ∙ mirror_page-dirty found h)

  -- After a `sync` that succeeds no page is dirty and the positions in the log agree.
  pub sync_clean :
      (h : HybridBackend D) (status : SyncStatus)
      → (sync h).0 ≡ ok status
      → ((sync h).1.dirty_pages ≡ [])
        × ((sync h).1.lsn_status.memory_lsn ≡ (sync h).1.lsn_status.disk_lsn)
  unfolding sync sync_report
  sync_clean h status w =
      let mirror = mirror_pending_pages h.dirty_pages h in
      let to_disk : Unit {0} → HybridBackend D → Result (Unit {0}) × HybridBackend D =
        λ _ g. sync_disk g in
      let report : Unit {0} → HybridBackend D → Result SyncStatus × HybridBackend D =
        λ _ g. sync_report h.dirty_pages g in
      let done = and_then_ok (mirror and_then to_disk) report status w in
      let first = and_then_ok mirror to_disk tt done.1 in
      let g = (sync_disk mirror.1).1 in
      let f = mark_pending_pages_mirrored h.dirty_pages g in
      let last = ap (λ o. o.1) (done.2 ∙ ap (λ o. report tt o.1) first.2) in
      let marked = mark_pending-Marked h.dirty_pages g in
      (
        ap (λ k. k.dirty_pages) last
            ∙ none_dirty f.dirty_pages (λ i.
              marked.2 i
              ∙ ap (λ d. not (BTreeSet.contains i h.dirty_pages) && BTreeSet.contains i d)
                  (mirror_pending_pages-dirty h.dirty_pages h)
              ∙ never_both (is_dirty i h)),
        ap (λ k. k.lsn_status.memory_lsn) last ∙ sym (ap (λ k. k.lsn_status.disk_lsn) last),
      )
