-- ===== src/Downsample.antt =====
-- storage/src/downsample: tasks and their scheduler.
pub mod Task
pub mod Queue
pub mod Worker
pub mod Scheduler
pub mod Run
pub mod Limit
pub mod Places
pub mod Counted
pub mod Order
pub mod Idle
pub mod Retry
mod Tests
