-- ===== src/Storage/Page.antt =====
-- crates/rnmdb-storage/src/lib.rs: `Page` and `PageHeader`. Ids and positions in the log are
-- numbers, a page size its number of bytes.
use rnov_modular_db.Base.{ℕ, not, List, length, is_empty, ◌==◌}
use rnov_modular_db.Common.{Result, ok, invalid_input, reject_if, ◌>>◌}

-- `PageCodec::FORMAT_VERSION`
abbrev pub format_version_2 : ℕ
format_version_2 = 2

pub record PageHeader : Type 0 where
  pub page_id : ℕ
  pub lsn : ℕ
  pub page_size : ℕ
  pub format_version : ℕ
  pub checksum : ℕ

-- `PageHeader::new`
abbrev pub header_new : ℕ → ℕ → ℕ → PageHeader
header_new page_id lsn page_size = record {
  page_id = page_id;
  lsn = lsn;
  page_size = page_size;
  format_version = format_version_2;
  checksum = 0;
}

pub record Page : Type 0 where
  pub header : PageHeader
  pub payload : List ℕ

-- `Page::id`
abbrev pub id : Page → ℕ
id page = page.header.page_id

abbrev pub new_with_header : PageHeader → List ℕ → Result Page
new_with_header header payload =
    reject_if (is_empty payload) invalid_input
    >> reject_if (not (length payload == header.page_size)) invalid_input
    >> ok (record { header = header; payload = payload })

-- `Page::new`
abbrev pub page_new : ℕ → List ℕ → Result Page
page_new page_id payload = new_with_header (header_new page_id 0 (length payload)) payload
