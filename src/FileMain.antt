-- ===== src/FileMain.antt =====
-- 4_ThreadCalc: the main program around `directory_parse`.
pub mod Main
pub mod Started
pub mod Whole
mod Tests
mod WholeTests
