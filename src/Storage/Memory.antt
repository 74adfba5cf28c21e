-- ===== src/Storage/Memory.antt =====
-- crates/rnmdb-storage/src/lib.rs: `MemoryBackend`. The lock around its pages is held for one call
-- at a time and is never poisoned, so that only the size of a page is refused.
pub mod Laws
use rnov_modular_db.Base.{
  ℕ, ◌+◌, ◌-◌, ◌≡◌, Bool, true, false, not, Option, none, some, List, [], ◌∷◌, if◌then◌else◌, ltb,
  length, ◌==◌,
}
use rnov_modular_db.Common.{Result, ok, err, invalid_input}
use rnov_modular_db.Collections.Order.{nat_order}
use rnov_modular_db.Collections.BTreeMap
use rnov_modular_db.Collections.BTreeMap.{BTreeMap}
use rnov_modular_db.Storage.Page.{Page, id}

pub record MemoryPageEntry : Type 0 where
  pub page : Page
  pub dirty : Bool
  pub pin_count : ℕ

pub record MemoryBackend : Type 0 where
  pub page_size : ℕ
  pub pages : BTreeMap ℕ MemoryPageEntry

abbrev pub new : ℕ → MemoryBackend
new page_size = record { page_size = page_size; pages = [] }

-- `StorageBackend::read_page`
unfoldable pub read_page : ℕ → MemoryBackend → Option Page
read_page i m = elim (BTreeMap.get i m.pages) [ none ↦ none | some entry ↦ some entry.page ]

-- `StorageBackend::write_page`
unfoldable pub write_page : Page → MemoryBackend → Result (Unit {0}) × MemoryBackend
write_page page m = if not (length page.payload == m.page_size) then (err invalid_input, m) else (
  ok tt,
  record m {
    pages = BTreeMap.insert (id page) (record { page = page; dirty = true; pin_count = 0 }) m.pages;
  },
)

abbrev change : (MemoryPageEntry → MemoryPageEntry) → ℕ → MemoryBackend → MemoryBackend
change f i m = elim (BTreeMap.get i m.pages) [
  | none ↦ m
  | some entry ↦ record m { pages = BTreeMap.insert i (f entry) m.pages }
]

-- `mark_clean`, whose answer its callers drop
unfoldable pub mark_clean : ℕ → MemoryBackend → MemoryBackend
mark_clean = change (λ entry. record entry { dirty = false })

-- `pin_page`, and the drop of the pin that it returns
unfoldable pub pin_page : ℕ → MemoryBackend → Option Page × MemoryBackend
unfolding read_page
pin_page i m =
    (read_page i m, change (λ entry. record entry { pin_count = entry.pin_count + 1 }) i m)

unfoldable pub unpin_page : ℕ → MemoryBackend → MemoryBackend
unpin_page = change (λ entry. record entry { pin_count = entry.pin_count - 1 })

abbrev count_entries : (MemoryPageEntry → Bool) → BTreeMap ℕ MemoryPageEntry → ℕ
count_entries p [] = 0
count_entries p ((i, entry) ∷ pages) = (if p entry then 1 else 0) + count_entries p pages

pub dirty_page_count : MemoryBackend → ℕ
dirty_page_count m = count_entries (λ entry. entry.dirty) m.pages

pub pinned_page_count : MemoryBackend → ℕ
pinned_page_count m = count_entries (λ entry. ltb 0 entry.pin_count) m.pages

-- `snapshot_pages`
abbrev pub pages_of : BTreeMap ℕ MemoryPageEntry → List Page
pages_of [] = []
pages_of ((i, entry) ∷ pages) = entry.page ∷ pages_of pages

abbrev pub snapshot_pages : MemoryBackend → List Page
snapshot_pages m = pages_of m.pages
