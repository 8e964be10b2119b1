-- ===== src/CalcHandle.antt =====
-- 0_Common/src/calc_handle.c and calc_handle_thirty_two.c: the calculation record, the choice of its
-- function, and the operators' texts. The two files have the same text but for the widths, and
-- each leaves one of two setters commented out.
pub mod Defs
pub mod Opers
pub mod Solve
pub mod Texts
pub mod Widths
mod Tests
