-- ===== src/Serve.antt =====
-- The waiting queue, the token queues and the memory gate of src/scheduler and src/cache.
pub mod Scheduler
pub mod Waiting
pub mod Spsc
pub mod Stream
pub mod Budget
pub mod Layers
pub mod Bucket
pub mod Tests
