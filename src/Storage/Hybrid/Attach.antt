-- ===== src/Storage/Hybrid/Attach.antt =====
-- crates/rnmdb-storage/src/lib.rs: a hybrid backend made from a memory with pages.
use rnov_modular_db.Base.{
  ℕ, ◌≡◌, refl, sym, ap, subst, ◌∙◌, true, none, some, List, [], ◌∷◌, arith, inl, inr, Bool-cases,
  Option-cases, In,
}
use rnov_modular_db.Common.{ok, err}
use rnov_modular_db.Collections.Order.{nat_order, same, same_iff}
use rnov_modular_db.Collections.BTreeMap
use rnov_modular_db.Collections.BTreeMap.{BTreeMap}
use rnov_modular_db.Collections.BTreeSet.{contains-insert}
use rnov_modular_db.Storage.Page.{Page, id}
use rnov_modular_db.Storage.Memory
use rnov_modular_db.Storage.Memory.{MemoryBackend, MemoryPageEntry, pages_of}
use rnov_modular_db.Storage.Disk.{StorageBackend}
use rnov_modular_db.Storage.Hybrid.{
  HybridBackend, hybrid_start, hybrid_new, with_page, attach_pages, attach_memory_to_disk,
}
use rnov_modular_db.Storage.Hybrid.Coherent.{in_memory, is_dirty, IsCoherent}

get-In :
    (i : ℕ) (entry : MemoryPageEntry) (pages : BTreeMap ℕ MemoryPageEntry)
    → BTreeMap.get i pages ≡ some entry
    → In entry.page (pages_of pages)
get-In i entry ((j, e) ∷ pages) h = elim (Bool-cases (same i j)) [
  | inl s ↦ inl (sym (ap (λ o. elim o [ none ↦ entry.page | some x ↦ x.page ]) (rw s at h)))
  | inr s ↦ inr (get-In i entry pages (rw s at h))
]
get-In i entry [] h = ground (arith, h)

-- every page of the memory stands under its id
abbrev pub IsKeyed : MemoryBackend → Type 0
IsKeyed m = (i : ℕ) (p : Page) → Memory.read_page i m ≡ some p → id p ≡ i

read_page-In :
    (i : ℕ) (p : Page) (m : MemoryBackend)
    → Memory.read_page i m ≡ some p
    → In p (Memory.snapshot_pages m)
unfolding Memory.read_page
read_page-In i p m h = elim (Option-cases (BTreeMap.get i m.pages)) [
  | inl e ↦ ground (arith, h, e)
  | inr (entry, e) ↦
      let here = ap (λ o. elim o [ none ↦ p | some x ↦ x ]) (rw (e, Memory.read_page) at h) in
      subst (λ q. In q (pages_of m.pages)) here (get-In i entry m.pages e)
]

module _ {D : StorageBackend} where
  -- What attaching pages keeps, and the pages that are dirty after it.
  unfoldable Attached : List Page → HybridBackend D → HybridBackend D → Type 0
  Attached pages h g =
      (g.memory_pages ≡ h.memory_pages)
      × (g.active_target ≡ h.active_target)
      × ((p : Page) → In p pages → is_dirty (id p) g ≡ true)
      × ((i : ℕ) → is_dirty i h ≡ true → is_dirty i g ≡ true)

  attach_pages-Attached :
      (pages : List Page) (h : HybridBackend D) → Attached pages h (attach_pages pages h)
  unfolding attach_pages Attached
  attach_pages-Attached [] h = (refl, refl, λ p e. elim e [ ], λ i k. k)
  attach_pages-Attached (page ∷ pages) h =
      let k = attach_pages-Attached pages (with_page page h) in
      (
        k.0,
        k.1,
        λ p e. elim e [
          | inl here ↦
              ap (λ q. is_dirty (id q) (attach_pages pages (with_page page h))) here
              ∙ k.3 (id page) (
                  ground (
                    arith,
                    contains-insert (id page) (id page) h.dirty_pages,
                    same_iff (id page) (id page),
                  ))
          | inr later ↦ k.2 p later
        ],
        λ i d. k.3 i (ground (arith, d, contains-insert i (id page) h.dirty_pages)),
      )

module _ (D : StorageBackend) where
  attached : MemoryBackend → D.state → HybridBackend D
  attached m s = attach_pages (Memory.snapshot_pages m) (hybrid_start m s)

  attached-IsCoherent : (m : MemoryBackend) (s : D.state) → IsKeyed m → IsCoherent (attached m s)
  unfolding IsCoherent Attached attached
  attached-IsCoherent m s keyed =
      let g = attached m s in
      let k = attach_pages-Attached (Memory.snapshot_pages m) (hybrid_start m s) in
      let held =
        λ (i : ℕ) (p : Page) (e : in_memory i g ≡ some p). sym (ap (Memory.read_page i) k.0) ∙ e in
      (
        λ i p e clean.
            let dirty =
              ap (λ j. is_dirty j g) (sym (keyed i p (held i p e)))
              ∙ k.2 p (read_page-In i p m (held i p e)) in
            ground (arith, sym clean ∙ dirty),
        λ i p e. keyed i p (held i p e),
        λ t. ground (arith, sym t ∙ k.1),
      )

  attached_made :
      (m : MemoryBackend) (s : D.state)
      → D.writes_to_disk ≡ true
      → attach_memory_to_disk m s ≡ ok (attached m s)
  unfolding attach_memory_to_disk hybrid_new attached
  attached_made m s w = rw (w, attach_memory_to_disk, hybrid_new) refl

  -- Attaching a memory whose pages stand under their ids makes a coherent backend, whatever the disk
  -- holds: every page of the memory is dirty.
  pub attach-IsCoherent :
      (m : MemoryBackend) (s : D.state) (h : HybridBackend D)
      → IsKeyed m
      → attach_memory_to_disk m s ≡ ok h
      → IsCoherent h
  unfolding attach_memory_to_disk hybrid_new attached
  attach-IsCoherent m s h keyed made = elim (Bool-cases D.writes_to_disk) [
    | inr no_write ↦ ground (arith, no_write, made)
    | inl writes ↦
        subst IsCoherent
          (ap (λ r. elim r [ err e ↦ h | ok g ↦ g ]) (sym (attached_made m s writes) ∙ made))
          (attached-IsCoherent m s keyed)
  ]
