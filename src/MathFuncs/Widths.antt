-- ===== src/MathFuncs/Widths.antt =====
-- The two instances of `Funcs`. The 64-bit functions of 0_Common/src/math_funcs.c are those of
-- `Funcs` at `sign64`; here are the functions of 0_Common/src/math_funcs_thirty_two.c, whose bodies
-- are the same at NUM_BITS_32 (but for one more message of `div_func_32`).
use net_calc.Prelude.{ℕ}
use net_calc.MathFuncs.Funcs

-- The index of the sign bit of `int64_t` and of `int32_t`.
abbrev pub sign64 : ℕ
sign64 = 63

abbrev pub sign32 : ℕ
sign32 = 31

abbrev pub add_func_32 : Funcs.MathFunc
add_func_32 = Funcs.add_func sign32

abbrev pub sub_func_32 : Funcs.MathFunc
sub_func_32 = Funcs.sub_func sign32

abbrev pub mult_func_32 : Funcs.MathFunc
mult_func_32 = Funcs.mult_func sign32

abbrev pub div_func_32 : Funcs.MathFunc
div_func_32 = Funcs.div_func sign32

abbrev pub mod_func_32 : Funcs.MathFunc
mod_func_32 = Funcs.mod_func sign32

abbrev pub shift_l_func_32 : Funcs.MathFunc
shift_l_func_32 = Funcs.shift_l_func sign32

abbrev pub shift_r_func_32 : Funcs.MathFunc
shift_r_func_32 = Funcs.shift_r_func sign32

abbrev pub and_func_32 : Funcs.MathFunc
and_func_32 = Funcs.and_func

abbrev pub or_func_32 : Funcs.MathFunc
or_func_32 = Funcs.or_func

abbrev pub xor_func_32 : Funcs.MathFunc
xor_func_32 = Funcs.xor_func

abbrev pub rotate_l_func_32 : Funcs.MathFunc
rotate_l_func_32 = Funcs.rotate_l_func sign32

abbrev pub rotate_r_func_32 : Funcs.MathFunc
rotate_r_func_32 = Funcs.rotate_r_func sign32
