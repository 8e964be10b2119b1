-- ===== src/SimpleCalc.antt =====
-- 1_SimpleCalc: one equation from the command line.
pub mod Convert
pub mod Main
pub mod Numbers
pub mod Stores
pub mod Solve
pub mod Samples
mod Tests
