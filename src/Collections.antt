-- ===== src/Collections.antt =====
-- The ordered containers of the standard library, as far as the crates use them.
pub mod Order
pub mod BTreeMap
pub mod BTreeSet
