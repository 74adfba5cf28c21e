-- ===== src/Storage/Hybrid/Warmed.antt =====
-- crates/rnmdb-storage/src/lib.rs: loading pages into the memory of a coherent hybrid backend.
use rnov_modular_db.Base.{
  ℕ, ◌≡◌, refl, sym, ap, subst, ◌∙◌, false, Option, none, some, List, [], ◌∷◌, arith, inl, inr,
  Bool-cases, ◌==◌,
}
use rnov_modular_db.Common.{ErrorKind, Result, ok, err}
use rnov_modular_db.Collections.Order.{nat_order, same, same_iff}
use rnov_modular_db.Collections.BTreeSet
use rnov_modular_db.Collections.BTreeSet.{BTreeSet, contains-remove}
use rnov_modular_db.Storage.Page.{Page, id}
use rnov_modular_db.Storage.Memory.Laws.{
  read_page-write_page, read_page-mark_clean, write_page_refused,
}
use rnov_modular_db.Storage.Codec.Laws.{seal}
use rnov_modular_db.Storage.Disk.{StorageBackend, Keeps}
use rnov_modular_db.Storage.Status.{HybridWarmupProgress, no_progress, record_page}
use rnov_modular_db.Storage.Hybrid.{
  HybridBackend, ◌and_then◌, write_memory, mark_clean, remove_dirty, insert_mirrored,
}
use rnov_modular_db.Storage.Hybrid.Coherent.{
  and_then-holds, sealed, seal-seal, on_disk, is_dirty, IsCoherent, content, clean_content,
}
use rnov_modular_db.Storage.Hybrid.Writes.{updated, Wrote-through}
use rnov_modular_db.Storage.Hybrid.Warmup.{
  has_dirty, ensure_warmup_pages_are_clean, store_warmed_page, warmup_found, warmup_page,
  warmup_loop, advance_warmup_lsns, warmup_report, warmup_pages,
}

module _ {D : StorageBackend} (keeps : Keeps D) where
  -- Nothing that is read changes, and no clean page becomes dirty.
  abbrev pub Kept : HybridBackend D → HybridBackend D → Type 0
  Kept h g =
      IsCoherent g
      × ((i : ℕ) → content i g ≡ content i h)
      × ((i : ℕ) → is_dirty i h ≡ false → is_dirty i g ≡ false)

  Kept-trans : (h g f : HybridBackend D) → Kept h g → Kept g f → Kept h f
  Kept-trans h g f a b = (b.0, λ i. b.1 i ∙ a.1 i, λ i k. b.2 i (a.2 i k))

  refused-Kept :
      (p : Page) (h : HybridBackend D) (e : ErrorKind)
      → (write_memory p h).0 ≡ err e
      → IsCoherent h
      → Kept h (write_memory p h).1
  refused-Kept p h e w c =
      subst (λ m. Kept h (record h { memory_pages = m }))
        (sym (write_page_refused p h.memory_pages e w)) (c, λ i. refl, λ i k. k)

  updated_known :
      (i : ℕ) (p : Page) (h : HybridBackend D)
      → content (id p) h ≡ ok (some (seal D.crc p))
      → updated D.crc i p (content i h) ≡ content i h
  updated_known i p h k = elim (Bool-cases (same i (id p))) [
    | inl s ↦ rw s (sym (ap (λ j. content j h) ((same_iff i (id p)).0 s) ∙ k))
    | inr s ↦ rw s refl
  ]

  store_warmed_page-Kept :
      (p : Page) (h : HybridBackend D)
      → on_disk (id p) h ≡ ok (some (seal D.crc p))
      → is_dirty (id p) h ≡ false
      → IsCoherent h
      → Kept h (store_warmed_page (id p) p h).1
  unfolding store_warmed_page IsCoherent
  store_warmed_page-Kept p h found clean c =
      let rest : Unit {0} → HybridBackend D → Result (Unit {0}) × HybridBackend D =
        λ _ g. (ok tt, insert_mirrored (id p) (remove_dirty (id p) (mark_clean (id p) g))) in
      and_then-holds (Kept h) (write_memory p h) rest (λ e w. refused-Kept p h e w c)
        (λ a w.
          let wrote =
            Wrote-through keeps p h
              (insert_mirrored (id p)
                (remove_dirty (id p) (mark_clean (id p) (write_memory p h).1)))
              (λ i. read_page-mark_clean i (id p) _ ∙ read_page-write_page i p h.memory_pages w)
              found (λ i n. refl)
              (λ i k s. ground (arith, k, s, contains-remove i (id p) h.dirty_pages))
              (λ t. rw (c.2 t) refl) c in
          (
            wrote.0,
            λ i.
                wrote.1 i
                ∙ updated_known i p h (
                    clean_content (id p) h c clean
                    ∙ ap (sealed D.crc) found
                    ∙ ap (λ q. ok (some q)) (seal-seal D.crc p)),
            λ i k. ground (arith, k, contains-remove i (id p) h.dirty_pages),
          ))

  warmup_found-Kept :
      (i : ℕ) (found : Result (Option Page)) (h : HybridBackend D)
      → on_disk i h ≡ found
      → is_dirty i h ≡ false
      → IsCoherent h
      → Kept h (warmup_found i found h).1
  unfolding warmup_found
  warmup_found-Kept i (err e) h f clean c = (c, λ j. refl, λ j k. k)
  warmup_found-Kept i (ok none) h f clean c = (c, λ j. refl, λ j k. k)
  warmup_found-Kept i (ok (some p)) h f clean c =
      let here = keeps.read_id i p h.disk_pages f in
      let stored =
        subst (λ j. Kept h (store_warmed_page j p h).1) here
          (store_warmed_page-Kept p h
            (ap (λ j. on_disk j h) here
              ∙ f
              ∙ ap (λ q. ok (some q)) (sym (keeps.read_sealed i p h.disk_pages f)))
            (ap (λ j. is_dirty j h) here ∙ clean) c) in
      let rest : Unit {0} → HybridBackend D → Result (Option ℕ) × HybridBackend D =
        λ _ g. (ok (some p.header.lsn), g) in
      and_then-holds (Kept h) (store_warmed_page i p h) rest (λ e w. stored) (λ a w. stored)

  has_dirty-Kept :
      (requested : BTreeSet ℕ) (h g : HybridBackend D)
      → ((i : ℕ) → is_dirty i h ≡ false → is_dirty i g ≡ false)
      → has_dirty requested h ≡ false
      → has_dirty requested g ≡ false
  unfolding has_dirty
  has_dirty-Kept [] h g k n = refl
  has_dirty-Kept (i ∷ requested) h g k n = elim (Bool-cases (is_dirty i h)) [
    | inl d ↦ ground (arith, n, d)
    | inr d ↦ rw (k i d, has_dirty) (has_dirty-Kept requested h g k (rw (d, has_dirty) at n))
  ]

  warmup_loop-Kept :
      (requested : BTreeSet ℕ) (progress : HybridWarmupProgress) (h : HybridBackend D)
      → has_dirty requested h ≡ false
      → IsCoherent h
      → Kept h (warmup_loop requested progress h).1
  unfolding warmup_loop has_dirty
  warmup_loop-Kept [] progress h n c = (c, λ j. refl, λ j k. k)
  warmup_loop-Kept (i ∷ requested) progress h n c =
      let first = warmup_found-Kept i (on_disk i h) h refl (ground (arith, n)) c in
      let rest : Option ℕ → HybridBackend D → Result HybridWarmupProgress × HybridBackend D =
        λ lsn g. warmup_loop requested (record_page lsn progress) g in
      let g = (warmup_page i h).1 in
      and_then-holds (Kept h) (warmup_page i h) rest (λ e w. first)
        (λ lsn w. Kept-trans h g _ first (
          warmup_loop-Kept requested (record_page lsn progress) g
            (has_dirty-Kept requested h g first.2 (ground (arith, n))) first.0))

  ensure_clean :
      (requested : BTreeSet ℕ) (h : HybridBackend D) (a : Unit {0})
      → ensure_warmup_pages_are_clean requested h ≡ ok a
      → has_dirty requested h ≡ false
  unfolding ensure_warmup_pages_are_clean
  ensure_clean requested h a e = ground (arith, e)

  advance_warmup_lsns-Kept :
      (h g : HybridBackend D) (progress : HybridWarmupProgress)
      → Kept h g
      → Kept h (advance_warmup_lsns progress g)
  unfolding IsCoherent
  advance_warmup_lsns-Kept h g progress k = elim (Bool-cases (progress.warmed_pages == 0)) [
    | inl z ↦ rw z k
    | inr z ↦ rw z k
  ]

  pub warmup_pages-Kept :
      (ids : List ℕ) (h : HybridBackend D) → IsCoherent h → Kept h (warmup_pages ids h).1
  unfolding warmup_pages
  warmup_pages-Kept ids h c =
      let requested = BTreeSet.collect ids in
      let checked : Result (Unit {0}) × HybridBackend D =
        (ensure_warmup_pages_are_clean requested h, h) in
      let loop : Unit {0} → HybridBackend D → Result HybridWarmupProgress × HybridBackend D =
        λ _ g. warmup_loop requested no_progress g in
      let looped =
        and_then-holds (Kept h) checked loop (λ e w. (c, λ i. refl, λ i k. k))
          (λ a w. warmup_loop-Kept requested no_progress h (ensure_clean requested h a w) c) in
      and_then-holds (Kept h) (checked and_then loop) (warmup_report requested) (λ e w. looped)
        (λ progress w. advance_warmup_lsns-Kept h _ progress looped)
