-- ===== src/Storage/Memory/Laws.antt =====
-- crates/rnmdb-storage/src/lib.rs: what reads of a `MemoryBackend` return after its other calls.
use rnov_modular_db.Base.{
  ℕ, ◌≡◌, refl, sym, ap, ◌∙◌, true, not, Option, none, some, if◌then◌else◌, length, ◌==◌, arith,
  inl, inr, Bool-cases, Option-cases,
}
use rnov_modular_db.Common.{ErrorKind, ok, err}
use rnov_modular_db.Collections.Order.{nat_order, same, same_iff}
use rnov_modular_db.Collections.BTreeMap
use rnov_modular_db.Collections.BTreeMap.{BTreeMap, get-insert}
use rnov_modular_db.Storage.Page.{Page, id}
use rnov_modular_db.Storage.Memory.{
  MemoryPageEntry, MemoryBackend, read_page, write_page, mark_clean,
}

pub read_page-write_page :
    (i : ℕ) (p : Page) (m : MemoryBackend)
    → (write_page p m).0 ≡ ok tt
    → read_page i (write_page p m).1 ≡ (if same i (id p) then some p else read_page i m)
unfolding read_page write_page
read_page-write_page i p m h = elim (Bool-cases (not (length p.payload == m.page_size))) [
  | inl e ↦ ground (arith, h, e)
  | inr e ↦
      rw (e, write_page)
        (ground
          (arith, get-insert i (id p) (record { page = p; dirty = true; pin_count = 0 }) m.pages))
]

abbrev page_of : Option MemoryPageEntry → Option Page
page_of none = none
page_of (some entry) = some entry.page

-- A change of an entry that keeps its page.
keep_page :
    (i j : ℕ) (old changed : MemoryPageEntry) (pages : BTreeMap ℕ MemoryPageEntry)
    → BTreeMap.get j pages ≡ some old
    → changed.page ≡ old.page
    → page_of (BTreeMap.get i (BTreeMap.insert j changed pages)) ≡ page_of (BTreeMap.get i pages)
keep_page i j old changed pages h k =
    ap page_of (get-insert i j changed pages) ∙ elim (Bool-cases (same i j)) [
      | inl e ↦
          rw e
            (ap some k ∙ sym (ap page_of (ap (λ x. BTreeMap.get x pages) ((same_iff i j).0 e) ∙ h)))
      | inr e ↦ rw e refl
    ]

pub read_page-mark_clean :
    (i j : ℕ) (m : MemoryBackend) → read_page i (mark_clean j m) ≡ read_page i m
unfolding mark_clean read_page
read_page-mark_clean i j m = elim (Option-cases (BTreeMap.get j m.pages)) [
  | inl e ↦ rw (e, mark_clean, read_page) refl
  | inr (entry, e) ↦ rw (e, mark_clean, read_page) (keep_page i j entry _ m.pages e refl)
]

pub write_page_refused :
    (p : Page) (m : MemoryBackend) (e : ErrorKind)
    → (write_page p m).0 ≡ err e
    → (write_page p m).1 ≡ m
unfolding write_page
write_page_refused p m e h = elim (Bool-cases (not (length p.payload == m.page_size))) [
  | inl k ↦ rw (k, write_page) refl
  | inr k ↦ ground (arith, h, k)
]
