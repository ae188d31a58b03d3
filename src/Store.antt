-- ===== src/Store.antt =====
-- The spill tier of src/cache/block_store.cpp.
pub mod Format
pub mod Words
pub mod Components
pub mod RoundTrip
pub mod Index
pub mod Keyed
pub mod Counted
pub mod Written
pub mod Tests
