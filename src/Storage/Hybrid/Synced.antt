-- ===== src/Storage/Hybrid/Synced.antt =====
-- crates/rnmdb-storage/src/lib.rs: what a hybrid backend is after `sync`.
use rnov_modular_db.Base.{
  ℕ, ◌≡◌, refl, sym, ap, subst, ◌∙◌, true, false, not, ◌&&◌, Option, none, some, List, [], ◌∷◌,
  arith, inl, inr, Bool-cases, Option-cases,
}
use rnov_modular_db.Common.{Result, ok}
use rnov_modular_db.Collections.Order.{nat_order, same_iff}
use rnov_modular_db.Collections.BTreeSet
use rnov_modular_db.Collections.BTreeSet.{BTreeSet, contains-remove}
use rnov_modular_db.Storage.Page.{Page, id}
use rnov_modular_db.Storage.Codec.Laws.{seal}
use rnov_modular_db.Storage.Disk.{StorageBackend, Keeps}
use rnov_modular_db.Storage.Status.{SyncStatus}
use rnov_modular_db.Storage.Hybrid.{HybridBackend, ◌and_then◌, write_disk}
use rnov_modular_db.Storage.Hybrid.Coherent.{
  and_then_ok, view, sealed, in_memory, on_disk, is_dirty, IsCoherent, content,
}
use rnov_modular_db.Storage.Hybrid.Clean.{none_dirty, never_both, Marked, mark_pending-Marked}
use rnov_modular_db.Storage.Hybrid.Writes.{some_inj}
use rnov_modular_db.Storage.Hybrid.Sync.{
  mirror_page, mirror_pending_pages, mark_pending_pages_mirrored, advance_synced_lsns, sync_disk,
  sync_report, sync,
}

module _ {D : StorageBackend} (keeps : Keeps D) where
  -- The pending pages that the memory holds are on the disk `s`, and it reads as before elsewhere.
  abbrev Mirrored : List ℕ → HybridBackend D → D.state → Type 0
  Mirrored pending h s =
      ((i : ℕ) (p : Page)
        → BTreeSet.contains i pending ≡ true
        → in_memory i h ≡ some p
        → D.read_page i s ≡ ok (some (seal D.crc p)))
      × ((i : ℕ) → BTreeSet.contains i pending ≡ false → D.read_page i s ≡ on_disk i h)
      × ((i : ℕ) → in_memory i h ≡ none → D.read_page i s ≡ on_disk i h)

  abbrev AllKeyed : HybridBackend D → Type 0
  AllKeyed h = (i : ℕ) (p : Page) → in_memory i h ≡ some p → id p ≡ i

  Mirrored-written :
      (i : ℕ) (pending : List ℕ) (q : Page) (h : HybridBackend D) (s : D.state)
      → (write_disk q h).0 ≡ ok tt
      → in_memory i h ≡ some q
      → id q ≡ i
      → Mirrored pending (write_disk q h).1 s
      → Mirrored (i ∷ pending) h s
  Mirrored-written i pending q h s w found key m = (
    λ j p member held. elim (Bool-cases (BTreeSet.contains j pending)) [
      | inl b ↦ m.0 j p b held
      | inr b ↦
          let here = (same_iff j i).0 (ground (arith, member, b)) in
          m.1 j b
          ∙ ap (λ k. on_disk k (write_disk q h).1) (here ∙ sym key)
          ∙ keeps.read_written q h.disk_pages w
          ∙ ap (λ x. ok (some (seal D.crc x)))
              (some_inj q p (sym found ∙ ap (λ k. in_memory k h) (sym here) ∙ held))
    ],
    λ j b.
        m.1 j (ground (arith, b))
        ∙ keeps.read_other j q h.disk_pages w (λ e. ground (arith, b, (same_iff j i).1 (e ∙ key))),
    λ j e.
        m.2 j e
        ∙ keeps.read_other j q h.disk_pages w
            (λ k. ground (arith, sym e ∙ ap (λ n. in_memory n h) (k ∙ key) ∙ found)),
  )

  Mirrored-absent :
      (i : ℕ) (pending : List ℕ) (h : HybridBackend D) (s : D.state)
      → in_memory i h ≡ none
      → Mirrored pending h s
      → Mirrored (i ∷ pending) h s
  Mirrored-absent i pending h s absent m = (
    λ j p member held. elim (Bool-cases (BTreeSet.contains j pending)) [
      | inl b ↦ m.0 j p b held
      | inr b ↦
          let here = (same_iff j i).0 (ground (arith, member, b)) in
          ground (arith, sym absent ∙ ap (λ k. in_memory k h) (sym here) ∙ held)
    ],
    λ j b. m.1 j (ground (arith, b)),
    m.2,
  )

  mirror_next :
      (i : ℕ) (pending : List ℕ) (h : HybridBackend D) (found : Option Page)
      → in_memory i h ≡ found
      → mirror_pending_pages (i ∷ pending) h
        ≡ (mirror_page found h and_then (λ _ g. mirror_pending_pages pending g))
  unfolding mirror_pending_pages
  mirror_next i pending h found e =
      ap (λ o. mirror_page o h and_then (λ _ g. mirror_pending_pages pending g)) e

  mirror_pending_pages-Mirrored :
      (pending : List ℕ) (h : HybridBackend D)
      → AllKeyed h
      → (mirror_pending_pages pending h).0 ≡ ok tt
      → (s : D.state) × ((mirror_pending_pages pending h).1 ≡ record h { disk_pages = s })
        × Mirrored pending h s
  unfolding mirror_pending_pages
  mirror_pending_pages-Mirrored [] h keyed w =
      (h.disk_pages, refl, (λ i p e k. ground (arith, e), λ i e. refl, λ i e. refl))
  mirror_pending_pages-Mirrored (i ∷ pending) h keyed w = elim (Option-cases (in_memory i h)) [
    | inl absent ↦
        let next = mirror_next i pending h none absent in
        let further =
          mirror_pending_pages-Mirrored pending h keyed (sym (ap (λ o. o.0) next) ∙ w) in
        (
          further.0,
          ap (λ o. o.1) next ∙ further.1,
          Mirrored-absent i pending h further.0 absent further.2,
        )
    | inr (q, found) ↦
        let next = mirror_next i pending h (some q) found in
        let rest : Unit {0} → HybridBackend D → Result (Unit {0}) × HybridBackend D =
          λ _ g. mirror_pending_pages pending g in
        let done = and_then_ok (write_disk q h) rest tt (sym (ap (λ o. o.0) next) ∙ w) in
        let g = (write_disk q h).1 in
        let further =
          mirror_pending_pages-Mirrored pending g keyed (sym (ap (λ o. o.0) (next ∙ done.2)) ∙ w) in
        (
          further.0,
          ap (λ o. o.1) (next ∙ done.2) ∙ further.1,
          Mirrored-written i pending q h further.0 done.1 found (keyed i q found) further.2,
        )
  ]

  -- After a `sync` that succeeds: every page of the memory is on the disk, none is dirty, and the
  -- positions of the log agree.
  abbrev pub Synced : HybridBackend D → HybridBackend D → Type 0
  Synced h g =
      ((i : ℕ) → content i g ≡ content i h)
      × ((i : ℕ) (p : Page) → in_memory i g ≡ some p → on_disk i g ≡ ok (some (seal D.crc p)))
      × (g.dirty_pages ≡ [])
      × (g.lsn_status.memory_lsn ≡ g.lsn_status.disk_lsn)
      × ((i : ℕ) (p : Page) → in_memory i g ≡ some p → id p ≡ i)

  Synced-end :
      (h g f : HybridBackend D) (s : D.state)
      → IsCoherent h
      → Mirrored h.dirty_pages h s
      → ((i : ℕ) → in_memory i g ≡ in_memory i h)
      → ((i : ℕ) → on_disk i g ≡ D.read_page i s)
      → g.dirty_pages ≡ h.dirty_pages
      → Marked h.dirty_pages g f
      → Synced h (advance_synced_lsns f)
  unfolding IsCoherent
  Synced-end h g f s c m held read dirty k =
      let same_pages = λ (i : ℕ). k.0 i ∙ held i in
      let same_disk = λ (i : ℕ). ap (λ d. D.read_page i d) k.1 ∙ read i in
      (
        λ i. elim (Option-cases (in_memory i h)) [
          | inl e ↦
              ap (λ o. sealed D.crc (view o (on_disk i f))) (same_pages i ∙ e)
              ∙ ap (sealed D.crc) (same_disk i ∙ m.2 i e)
              ∙ sym (ap (λ o. sealed D.crc (view o (on_disk i h))) e)
          | inr (p, e) ↦
              ap (λ o. sealed D.crc (view o (on_disk i f))) (same_pages i ∙ e)
              ∙ sym (ap (λ o. sealed D.crc (view o (on_disk i h))) e)
        ],
        λ i p e.
            let before = sym (same_pages i) ∙ e in
            same_disk i ∙ elim (Bool-cases (is_dirty i h)) [
              | inl b ↦ m.0 i p b before
              | inr b ↦ m.1 i b ∙ c.0 i p before b
            ],
        none_dirty f.dirty_pages (λ i.
            k.2 i
            ∙ ap (λ d. not (is_dirty i h) && BTreeSet.contains i d) dirty
            ∙ never_both (is_dirty i h)),
        refl,
        λ i p e. c.1 i p (sym (same_pages i) ∙ e),
      )

  pub Synced-IsCoherent : (h g : HybridBackend D) → Synced h g → IsCoherent g
  unfolding IsCoherent
  Synced-IsCoherent h g s = (λ i p e k. s.1 i p e, s.4, λ t. s.2)

  sync_report-Synced :
      (h g : HybridBackend D) (s : D.state)
      → IsCoherent h
      → Mirrored h.dirty_pages h s
      → g ≡ record h { disk_pages = s }
      → (D.sync s).0 ≡ ok tt
      → Synced h (sync_report h.dirty_pages (sync_disk g).1).1
  unfolding sync_report
  sync_report-Synced h g s c m e w =
      let f : HybridBackend D = record h { disk_pages = (D.sync s).1 } in
      subst (λ k. Synced h (sync_report h.dirty_pages (sync_disk k).1).1) (sym e)
        (Synced-end h f (mark_pending_pages_mirrored h.dirty_pages f) s c m (λ i. refl)
          (λ i. keeps.read_synced i s w) refl (mark_pending-Marked h.dirty_pages f))

  pub sync-Synced :
      (h : HybridBackend D) (status : SyncStatus)
      → (sync h).0 ≡ ok status
      → IsCoherent h
      → Synced h (sync h).1
  unfolding sync IsCoherent
  sync-Synced h status w c =
      let mirror = mirror_pending_pages h.dirty_pages h in
      let to_disk : Unit {0} → HybridBackend D → Result (Unit {0}) × HybridBackend D =
        λ _ g. sync_disk g in
      let report : Unit {0} → HybridBackend D → Result SyncStatus × HybridBackend D =
        λ _ g. sync_report h.dirty_pages g in
      let done = and_then_ok (mirror and_then to_disk) report status w in
      let first = and_then_ok mirror to_disk tt done.1 in
      let m = mirror_pending_pages-Mirrored h.dirty_pages h c.1 first.1 in
      let synced = ap (λ g. (sync_disk g).0) (sym m.1) ∙ sym (ap (λ o. o.0) first.2) ∙ done.1 in
      subst (λ o. Synced h o.1) (sym (done.2 ∙ ap (λ o. report tt o.1) first.2))
        (sync_report-Synced h mirror.1 m.0 c m.2 m.1 synced)
