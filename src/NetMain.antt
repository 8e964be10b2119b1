-- ===== src/NetMain.antt =====
-- 5_NetCalc: the main program around the listener, and its options.
pub mod Options
pub mod Started
pub mod Server
pub mod Whole
mod Tests
mod WholeTests
