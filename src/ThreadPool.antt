-- ===== src/ThreadPool.antt =====
-- 4_ThreadCalc/src/threadpool.c: threads that share the job queue.
pub mod Defs
pub mod Count
pub mod Order
pub mod Once
pub mod Sound
pub mod Kept
pub mod Shutdown
pub mod Measure
pub mod Works
pub mod Progress
pub mod Leave
pub mod Drain
pub mod Finish
pub mod Room
pub mod Feed
pub mod Executor
pub mod Represent
pub mod Simulate
pub mod Create
pub mod Created
pub mod Tally
pub mod Release
mod Tests
mod CreateTests
mod ExecutorTests
