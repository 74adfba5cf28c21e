-- ===== src/Storage/Hybrid/Coherent.antt =====
-- crates/rnmdb-storage/src/lib.rs: when the memory and the disk of a hybrid backend agree.
use rnov_modular_db.Base.{
  ℕ, ◌≡◌, refl, sym, ap, ◌∙◌, ◌⊎◌, Bool, false, Option, none, some, [], arith, inl, inr,
  Option-cases,
}
use rnov_modular_db.Common.{ErrorKind, Result, ok, err, Result-cases}
use rnov_modular_db.Collections.Order.{nat_order}
use rnov_modular_db.Collections.BTreeSet
use rnov_modular_db.Storage.Page.{Page, id}
use rnov_modular_db.Storage.Memory
use rnov_modular_db.Storage.Codec.{Crc, checksum_page}
use rnov_modular_db.Storage.Codec.Laws.{seal}
use rnov_modular_db.Storage.Disk.{StorageBackend}
use rnov_modular_db.Storage.Status.{HybridSyncTarget, memory, disk}
use rnov_modular_db.Storage.Hybrid.{HybridBackend, ◌and_then◌, read_page}

pub and_then_ok :
    {S A B : Type 0} (o : Result A × S) (f : A → S → Result B × S) (b : B)
    → (o and_then f).0 ≡ ok b
    → (a : A) × (o.0 ≡ ok a) × ((o and_then f) ≡ f a o.1)
and_then_ok (ok a, s) f b h = (a, refl, refl)
and_then_ok (err e, s) f b h = ground (arith, h)

-- What holds whether the first part fails or the rest is run.
pub and_then-holds :
    {S A B : Type 0} (P : S → Type 0) (o : Result A × S) (f : A → S → Result B × S)
    → ((e : ErrorKind) → o.0 ≡ err e → P o.1)
    → ((a : A) → o.0 ≡ ok a → P (f a o.1).1)
    → P (o and_then f).1
and_then-holds P (ok a, s) f h k = k a refl
and_then-holds P (err e, s) f h k = h e refl

-- what a read finds, first in memory and then on the disk
abbrev pub view : Option Page → Result (Option Page) → Result (Option Page)
view none on_disk = on_disk
view (some page) on_disk = ok (some page)

-- The same with the version and the checksum of the page set, which writing to the disk does.
abbrev pub sealed : Crc → Result (Option Page) → Result (Option Page)
sealed crc (err e) = err e
sealed crc (ok none) = ok none
sealed crc (ok (some page)) = ok (some (seal crc page))

pub target_cases : (t : HybridSyncTarget) → (t ≡ memory) ⊎ (t ≡ disk)
target_cases memory = inl refl
target_cases disk = inr refl

pub seal-seal : (crc : Crc) (p : Page) → seal crc (seal crc p) ≡ seal crc p
unfolding checksum_page
seal-seal crc p = refl

module _ {D : StorageBackend} where
  abbrev pub in_memory : ℕ → HybridBackend D → Option Page
  in_memory i h = Memory.read_page i h.memory_pages

  abbrev pub on_disk : ℕ → HybridBackend D → Result (Option Page)
  on_disk i h = D.read_page i h.disk_pages

  abbrev pub is_dirty : ℕ → HybridBackend D → Bool
  is_dirty i h = BTreeSet.contains i h.dirty_pages

  -- A page of the memory stands under its id, it is on the disk too unless it is dirty, as it is
  -- encoded there, and while the disk is the active target no page is dirty.
  unfoldable pub IsCoherent : HybridBackend D → Type 0
  IsCoherent h =
      ((i : ℕ) (p : Page)
        → in_memory i h ≡ some p
        → is_dirty i h ≡ false
        → on_disk i h ≡ ok (some (seal D.crc p)))
      × ((i : ℕ) (p : Page) → in_memory i h ≡ some p → id p ≡ i)
      × (h.active_target ≡ disk → h.dirty_pages ≡ [])

  abbrev pub content : ℕ → HybridBackend D → Result (Option Page)
  content i h = sealed D.crc (view (in_memory i h) (on_disk i h))

  read_from :
      (i : ℕ) (h : HybridBackend D)
      → h.active_target ≡ disk
      → ((p : Page) → in_memory i h ≡ some p → on_disk i h ≡ ok (some (seal D.crc p)))
      → sealed D.crc (read_page i h) ≡ content i h
  unfolding read_page
  read_from i h d agree = elim (Option-cases (in_memory i h)) [
    | inr (p, m) ↦ rw (d, agree p m, m, read_page) (ap (λ q. ok (some q)) (seal-seal D.crc p))
    | inl m ↦ elim (Result-cases (on_disk i h)) [
      | inr (e, r) ↦ rw (d, r, m, read_page) refl
      | inl (found, r) ↦ elim (Option-cases found) [
        | inl n ↦ rw (d, r ∙ ap ok n, m, read_page) refl
        | inr (q, n) ↦ rw (d, r ∙ ap ok n, m, read_page) refl
      ]
    ]
  ]

  -- On a coherent backend both targets read the same.
  pub coherent_read :
      (i : ℕ) (h : HybridBackend D) → IsCoherent h → sealed D.crc (read_page i h) ≡ content i h
  unfolding IsCoherent read_page
  coherent_read i h c = elim (target_cases h.active_target) [
    | inl m ↦ elim (Option-cases (in_memory i h)) [
      | inl n ↦ rw (m, n, read_page) refl
      | inr (p, n) ↦ rw (m, n, read_page) refl
    ]
    | inr d ↦ read_from i h d (λ p m. c.0 i p m (rw (c.2 d) refl))
  ]

  -- A step that changes neither the pages of the memory, as they are read, nor the disk, and that
  -- makes no page clean.
  pub IsCoherent-transfer :
      (h g : HybridBackend D)
      → ((i : ℕ) → in_memory i g ≡ in_memory i h)
      → ((i : ℕ) → on_disk i g ≡ on_disk i h)
      → ((i : ℕ) → is_dirty i g ≡ false → is_dirty i h ≡ false)
      → (g.active_target ≡ disk → g.dirty_pages ≡ [])
      → IsCoherent h
      → IsCoherent g
  unfolding IsCoherent
  IsCoherent-transfer h g m d clean target c = (
    λ i p e k. d i ∙ c.0 i p (sym (m i) ∙ e) (clean i k),
    λ i p e. c.1 i p (sym (m i) ∙ e),
    target,
  )

  -- Where a page is clean, the disk has what a read finds.
  pub clean_content :
      (i : ℕ) (h : HybridBackend D)
      → IsCoherent h
      → is_dirty i h ≡ false
      → content i h ≡ sealed D.crc (on_disk i h)
  unfolding IsCoherent
  clean_content i h c k = elim (Option-cases (in_memory i h)) [
    | inl e ↦ ap (λ o. sealed D.crc (view o (on_disk i h))) e
    | inr (p, e) ↦
        ap (λ o. sealed D.crc (view o (on_disk i h))) e
        ∙ ap (λ q. ok (some q)) (sym (seal-seal D.crc p))
        ∙ ap (sealed D.crc) (sym (c.0 i p e k))
  ]
