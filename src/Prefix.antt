-- ===== src/Prefix.antt =====
-- src/cache/prefix_cache.h and prefix_cache.cpp.
pub mod Cache
pub mod Keys
pub mod Match
pub mod Harvest
pub mod Tests
