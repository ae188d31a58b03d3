-- ===== src/Worker.antt =====
-- The host logic of src/runtime/worker.{h,cpp}.
pub mod Rows
pub mod Mask
pub mod Constrained
pub mod Runs
pub mod Evict
pub mod Gather
pub mod Compact
pub mod Admit
pub mod Chunks
pub mod Units
pub mod Tests
