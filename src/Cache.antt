-- ===== src/Cache.antt =====
-- The KV caches of src/cache/batch_kv_cache.{h,cpp} and the writer of src/cache/kv_quant.cpp.
pub mod Arrays
pub mod Batch
pub mod Contents
pub mod Moves
pub mod Surgery
pub mod Justify
pub mod Whole
pub mod Rows
pub mod Merge
pub mod Write
pub mod Writer
pub mod Tests
