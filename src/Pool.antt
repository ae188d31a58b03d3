-- ===== src/Pool.antt =====
-- src/cache/block_pool.h and block_pool.cpp.
pub mod Blocks
pub mod Recency
pub mod Evict
pub mod Refines
pub mod Tests
