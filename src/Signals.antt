-- ===== src/Signals.antt =====
-- 4_ThreadCalc/src/signals.c: the flag that stops the two servers.
pub mod Defs
pub mod Stops
mod Tests
