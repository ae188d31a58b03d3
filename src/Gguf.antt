-- ===== src/Gguf.antt =====
-- The GGUF container, src/core/gguf.cpp: its header, the values that are skipped, the
-- directory and the halves.
pub mod Reader
pub mod Directory
pub mod Container
pub mod Words
pub mod Skip
pub mod Parts
pub mod RoundTrip
pub mod Half
pub mod Ieee
pub mod Normalize
pub mod Float
pub mod Tests
