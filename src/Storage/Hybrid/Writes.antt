-- ===== src/Storage/Hybrid/Writes.antt =====
-- crates/rnmdb-storage/src/lib.rs: writes and switches of a coherent hybrid backend.
use rnov_modular_db.Base.{
  ℕ, ◌≡◌, ◌≢◌, refl, sym, ap, subst, ◌∙◌, true, false, Option, none, some, [], if◌then◌else◌, arith,
  inl, inr, Bool-cases, List-cases, ◌||◌,
}
use rnov_modular_db.Common.{Result, ok}
use rnov_modular_db.Collections.Order.{nat_order, same, same_iff}
use rnov_modular_db.Collections.BTreeSet.{contains-insert}
use rnov_modular_db.Storage.Page.{Page, id}
use rnov_modular_db.Storage.Memory.Laws.{read_page-write_page, read_page-mark_clean}
use rnov_modular_db.Storage.Codec.{Crc}
use rnov_modular_db.Storage.Codec.Laws.{seal}
use rnov_modular_db.Storage.Disk.{StorageBackend, Keeps}
use rnov_modular_db.Storage.Status.{
  HybridSyncTarget, memory, disk, same_target, SwitchDataMovement, metadata_only, pre_synchronized,
  full_data_movement, switch_data_movement,
}
use rnov_modular_db.Storage.Hybrid.{
  HybridBackend, ◌and_then◌, write_memory, write_disk, mark_clean, insert_dirty, insert_mirrored,
  advance_disk_lsn, advance_memory_lsn, write_memory_active_page, write_disk_active_page,
  write_active, write_page, sync_status, switch_by, switch_active_target,
}
use rnov_modular_db.Storage.Hybrid.Coherent.{
  and_then_ok, view, sealed, in_memory, on_disk, is_dirty, IsCoherent, content, IsCoherent-transfer,
}

-- `read` after a page was written over it, with the version and the checksum set
abbrev pub updated : Crc → ℕ → Page → Result (Option Page) → Result (Option Page)
updated crc i p before = if same i (id p) then ok (some (seal crc p)) else before

updated_here :
    (crc : Crc) (i : ℕ) (p : Page) (b : Result (Option Page))
    → same i (id p) ≡ true
    → updated crc i p b ≡ ok (some (seal crc p))
updated_here crc i p b h = rw h refl

updated_other :
    (crc : Crc) (i : ℕ) (p : Page) (b : Result (Option Page))
    → same i (id p) ≡ false
    → updated crc i p b ≡ b
updated_other crc i p b h = rw h refl

pub some_inj : (p q : Page) → some p ≡ some q → p ≡ q
some_inj p q h = ap (λ o. elim o [ none ↦ p | some x ↦ x ]) h

keyed : (i : ℕ) (p q : Page) → same i (id p) ≡ true → some p ≡ some q → id q ≡ i
keyed i p q s h = sym (ap id (some_inj p q h)) ∙ sym ((same_iff i (id p)).0 s)

not_same : (i j : ℕ) → same i j ≡ false → i ≢ j
not_same i j s e = ground (arith, s, e, same_iff i j)

same_target-eq : (s t : HybridSyncTarget) → same_target s t ≡ true → s ≡ t
same_target-eq memory memory h = refl
same_target-eq disk disk h = refl
same_target-eq memory disk h = ground (arith, h)
same_target-eq disk memory h = ground (arith, h)

module _ {D : StorageBackend} (keeps : Keeps D) where
  -- A coherent backend in which every id reads as before, but for the page written.
  abbrev pub Wrote : Page → HybridBackend D → HybridBackend D → Type 0
  Wrote p h g = IsCoherent g × ((i : ℕ) → content i g ≡ updated D.crc i p (content i h))

  -- A page that is written to the memory and is dirty.
  Wrote-dirty :
      (p : Page) (h g : HybridBackend D)
      → ((i : ℕ) → in_memory i g ≡ (if same i (id p) then some p else in_memory i h))
      → ((i : ℕ) → on_disk i g ≡ on_disk i h)
      → ((i : ℕ) → is_dirty i g ≡ (same i (id p) || is_dirty i h))
      → g.active_target ≡ memory
      → IsCoherent h
      → Wrote p h g
  unfolding IsCoherent
  Wrote-dirty p h g m d dirty target c = (
    (
      λ i q e k. elim (Bool-cases (same i (id p))) [
        | inl s ↦ ground (arith, s, dirty i, k)
        | inr s ↦ d i ∙ c.0 i q (sym (rw s at (m i)) ∙ e) (ground (arith, s, dirty i, k))
      ],
      λ i q e. elim (Bool-cases (same i (id p))) [
        | inl s ↦ keyed i p q s (sym (rw s at (m i)) ∙ e)
        | inr s ↦ c.1 i q (sym (rw s at (m i)) ∙ e)
      ],
      λ k. ground (arith, target, k),
    ),
    λ i. elim (Bool-cases (same i (id p))) [
      | inl s ↦
          ap (λ o. sealed D.crc (view o (on_disk i g))) (rw s at (m i))
          ∙ sym (updated_here D.crc i p _ s)
      | inr s ↦
          ap (λ o. sealed D.crc (view o (on_disk i g))) (rw s at (m i))
          ∙ ap (λ o. sealed D.crc (view (in_memory i h) o)) (d i)
          ∙ sym (updated_other D.crc i p _ s)
    ],
  )

  -- A page that is written to the disk and to the memory.
  pub Wrote-through :
      (p : Page) (h g : HybridBackend D)
      → ((i : ℕ) → in_memory i g ≡ (if same i (id p) then some p else in_memory i h))
      → on_disk (id p) g ≡ ok (some (seal D.crc p))
      → ((i : ℕ) → i ≢ id p → on_disk i g ≡ on_disk i h)
      → ((i : ℕ) → is_dirty i g ≡ false → same i (id p) ≡ false → is_dirty i h ≡ false)
      → (g.active_target ≡ disk → g.dirty_pages ≡ [])
      → IsCoherent h
      → Wrote p h g
  unfolding IsCoherent
  Wrote-through p h g m here other dirty target c = (
    (
      λ i q e k. elim (Bool-cases (same i (id p))) [
        | inl s ↦
            ap (λ j. on_disk j g) ((same_iff i (id p)).0 s)
            ∙ here
            ∙ ap (λ x. ok (some (seal D.crc x))) (some_inj p q (sym (rw s at (m i)) ∙ e))
        | inr s ↦ other i (not_same i (id p) s) ∙ c.0 i q (sym (rw s at (m i)) ∙ e) (dirty i k s)
      ],
      λ i q e. elim (Bool-cases (same i (id p))) [
        | inl s ↦ keyed i p q s (sym (rw s at (m i)) ∙ e)
        | inr s ↦ c.1 i q (sym (rw s at (m i)) ∙ e)
      ],
      target,
    ),
    λ i. elim (Bool-cases (same i (id p))) [
      | inl s ↦
          ap (λ o. sealed D.crc (view o (on_disk i g))) (rw s at (m i))
          ∙ sym (updated_here D.crc i p _ s)
      | inr s ↦
          ap (λ o. sealed D.crc (view o (on_disk i g))) (rw s at (m i))
          ∙ ap (λ o. sealed D.crc (view (in_memory i h) o)) (other i (not_same i (id p) s))
          ∙ sym (updated_other D.crc i p _ s)
    ],
  )

  write_memory_active-Wrote :
      (p : Page) (h : HybridBackend D)
      → h.active_target ≡ memory
      → (write_memory_active_page (id p) p h).0 ≡ ok tt
      → IsCoherent h
      → Wrote p h (write_memory_active_page (id p) p h).1
  unfolding write_memory_active_page
  write_memory_active-Wrote p h target w c =
      let written = and_then_ok (write_memory p h) (λ _ g. (ok tt, insert_dirty (id p) g)) tt w in
      subst (λ o. Wrote p h o.1) (sym written.2)
        (Wrote-dirty p h (insert_dirty (id p) (write_memory p h).1)
          (λ i. read_page-write_page i p h.memory_pages written.1) (λ i. refl)
          (λ i. contains-insert i (id p) h.dirty_pages) target c)

  -- both writes of a page, the disk first
  both : Page → HybridBackend D → Result (Unit {0}) × HybridBackend D
  both p h = write_disk p h and_then (λ _ f. write_memory p f)

  write_disk_active-Wrote :
      (p : Page) (h : HybridBackend D)
      → (write_disk_active_page (id p) p.header.lsn p h).0 ≡ ok tt
      → IsCoherent h
      → Wrote p h (write_disk_active_page (id p) p.header.lsn p h).1
  unfolding write_disk_active_page IsCoherent both
  write_disk_active-Wrote p h w c =
      let last : Unit {0} → HybridBackend D → Result (Unit {0}) × HybridBackend D = λ _ g.
        (ok tt, advance_disk_lsn p.header.lsn (insert_mirrored (id p) (mark_clean (id p) g))) in
      let done = and_then_ok (both p h) last tt w in
      let stored = and_then_ok (write_disk p h) (λ _ f. write_memory p f) tt done.1 in
      let f = (write_disk p h).1 in
      let in_both = sym (ap (λ o. o.0) stored.2) ∙ done.1 in
      subst (λ o. Wrote p h o.1) (sym (done.2 ∙ ap (λ o. last done.0 o.1) stored.2))
        (Wrote-through p h (last tt (write_memory p f).1).1
          (λ i. read_page-mark_clean i (id p) _ ∙ read_page-write_page i p h.memory_pages in_both)
          (keeps.read_written p h.disk_pages stored.1)
          (λ i n. keeps.read_other i p h.disk_pages stored.1 n) (λ i k s. k) c.2 c)

  write_active-Wrote :
      (target : HybridSyncTarget) (p : Page) (h : HybridBackend D)
      → h.active_target ≡ target
      → (write_active target p h).0 ≡ ok tt
      → IsCoherent h
      → Wrote p h (write_active target p h).1
  write_active-Wrote memory p h t w c = write_memory_active-Wrote p h t w c
  write_active-Wrote disk p h t w c = write_disk_active-Wrote p h w c

  -- On a coherent backend a write that succeeds leaves a coherent backend, on which the page written
  -- is read at its id and every other id as before.
  pub write_page-Wrote :
      (p : Page) (h : HybridBackend D)
      → (write_page p h).0 ≡ ok tt
      → IsCoherent h
      → Wrote p h (write_page p h).1
  unfolding write_page IsCoherent
  write_page-Wrote p h w c =
      let done =
        and_then_ok (write_active h.active_target p h)
          (λ _ g. (ok tt, advance_memory_lsn p.header.lsn g)) tt w in
      subst (λ o. Wrote p h o.1) (sym done.2) (write_active-Wrote h.active_target p h refl done.1 c)

  -- The same on another backend: its coherence is kept and every id reads as before.
  abbrev pub Unchanged : HybridBackend D → HybridBackend D → Type 0
  Unchanged h g = IsCoherent g × ((i : ℕ) → content i g ≡ content i h)

  switched :
      (h : HybridBackend D) (target : HybridSyncTarget)
      → (target ≡ disk → h.dirty_pages ≡ [])
      → IsCoherent h
      → IsCoherent (record h { active_target = target })
  switched h target clean c = IsCoherent-transfer h _ (λ i. refl) (λ i. refl) (λ i e. e) clean c

  switch_by-Unchanged :
      (movement : SwitchDataMovement) (target : HybridSyncTarget) (h : HybridBackend D)
      → (movement ≢ full_data_movement → target ≡ disk → h.dirty_pages ≡ [])
      → IsCoherent h
      → Unchanged h (switch_by movement target h).1
  switch_by-Unchanged full_data_movement target h clean c = (c, λ i. refl)
  switch_by-Unchanged metadata_only target h clean c =
      (switched h target (clean (λ e. ground (arith, e))) c, λ i. refl)
  switch_by-Unchanged pre_synchronized target h clean c =
      (switched h target (clean (λ e. ground (arith, e))) c, λ i. refl)

  clean_to_disk :
      (target : HybridSyncTarget) (h : HybridBackend D)
      → IsCoherent h
      → switch_data_movement (sync_status h) target ≢ full_data_movement
      → target ≡ disk
      → h.dirty_pages ≡ []
  unfolding switch_data_movement sync_status IsCoherent
  clean_to_disk target h c moved e = elim (Bool-cases (same_target h.active_target target)) [
    | inl s ↦ c.2 (same_target-eq h.active_target target s ∙ e)
    | inr s ↦ elim (List-cases h.dirty_pages) [
      | inl empty ↦ empty
      | inr (i, more, d) ↦
          elim (moved (rw (s, d, switch_data_movement, sync_status) (ground arith))) [ ]
    ]
  ]

  -- On a coherent backend a switch keeps coherence, and every id reads as before.
  pub switch-Unchanged :
      (target : HybridSyncTarget) (h : HybridBackend D)
      → IsCoherent h
      → Unchanged h (switch_active_target target h).1
  unfolding switch_active_target
  switch-Unchanged target h c =
      switch_by-Unchanged (switch_data_movement (sync_status h) target) target h
        (clean_to_disk target h c) c
