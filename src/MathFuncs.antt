-- ===== src/MathFuncs.antt =====
-- The calculator's functions: 0_Common/src/math_funcs.c and math_funcs_thirty_two.c, whose text is
-- the same but for the widths. `Validate` and `Funcs` hold the functions at every width, `Widths`
-- the two instances; the other modules prove.
pub mod Validate
pub mod Funcs
pub mod Widths
pub mod Exact
pub mod Divide
pub mod Bitwise
pub mod Rotate
pub mod Digits
mod Tests
