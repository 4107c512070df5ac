-- ===== src/Concurrency.antt =====
-- The fiber-based concurrency of the backend: src/backend/{task,fiber,channel,scheduler}.hh.
pub mod Fiber
pub mod Channel
pub mod Scheduler
mod Tests
