-- ===== src/Base.antt =====
-- include/base and src/base: threads and times.
pub mod ThreadPool
pub mod Thread
pub mod Timestamp
