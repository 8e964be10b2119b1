-- ===== src/FileHandler.antt =====
-- 4_ThreadCalc/src/thread_handle.c: files of equations from a directory.
pub mod Process
pub mod Directory
pub mod Loop
pub mod Total
pub mod Jobs
pub mod Parse
pub mod Samples
mod Tests
