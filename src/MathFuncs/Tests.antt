-- ===== src/MathFuncs/Tests.antt =====
-- Runs of the calculator's functions, and the theorems at concrete operands.
use net_calc.Prelude.{
  ◌+◌, ◌-◌, ◌%◌, ◌^◌, ◌≡◌, ℕ, refl, arith, some, none, min, max, ltb, if◌then◌else◌,
}
use net_calc.Prelude.Int.{◌+ℤ◌, ◌-ℤ◌, ◌*ℤ◌, quot_ℤ, rem_ℤ}
use net_calc.Prelude.Bits.{digit}
use net_calc.Words.{success, error, returns, undefined}
use net_calc.MathFuncs.Validate.{validate_add}
use net_calc.MathFuncs.Funcs.{add_func, sub_func, mult_func, div_func, mod_func}
use net_calc.MathFuncs.Funcs.{
  and_func, or_func, xor_func, shift_l_func, shift_r_func, rotate_l_func, rotate_r_func,
}
use net_calc.MathFuncs.Exact.{add_func-exact, sub_func-exact, mult_func-exact}
use net_calc.MathFuncs.Divide.{div_func-exact, mod_func-exact}
use net_calc.MathFuncs.Bitwise.{Digits}
use net_calc.MathFuncs.Digits.{bit_funcs_digits, rotate_r_func-rotate_l_func}
use net_calc.MathFuncs.Widths.{sign32, sign64, rotate_l_func_32}

-- -2 as a word
abbrev minus_two : ℕ
minus_two = 2 ^ 64 - 2

add_wraps_not : add_func sign64 (2 ^ 63 - 1) 1 (some 5) ≡ returns error (some 5)
unfolding add_func ◌+ℤ◌ validate_add ◌-ℤ◌
add_wraps_not = refl

null_result : mult_func sign64 3 4 none ≡ returns error none
unfolding mult_func
null_result = refl

rotate_left : rotate_l_func_32 0x8000_0001 4 (some 0) ≡ returns success (some 0x18)
unfolding rotate_l_func
rotate_left = refl

add_func-exact_example : add_func sign64 minus_two 5 (some 0) ≡ returns success (some 3)
unfolding ◌+ℤ◌
add_func-exact_example = add_func-exact sign64 minus_two 5 0 (omega arith) (omega arith)

-- 1 - (INT_MIN + 1) overflows behind the guard.
sub_func-exact_example : sub_func sign32 1 (2 ^ 31 + 1) (some 0) ≡ undefined
unfolding ◌-ℤ◌
sub_func-exact_example = sub_func-exact sign32 1 (2 ^ 31 + 1) 0 (omega arith) (omega arith)

mult_func-exact_example :
    mult_func sign64 minus_two 5 (some 0) ≡ returns success (some (2 ^ 64 - 10))
unfolding ◌*ℤ◌
mult_func-exact_example = mult_func-exact sign64 minus_two 5 0 (omega arith) (omega arith)

-- INT_MIN / -1 is refused.
div_func-exact_example : div_func sign64 (2 ^ 63) (2 ^ 64 - 1) (some 9) ≡ returns error (some 9)
unfolding quot_ℤ
div_func-exact_example = div_func-exact sign64 (2 ^ 63) (2 ^ 64 - 1) 9 (omega arith) (omega arith)

-- -7 % -2 is -1.
mod_func-exact_example :
    mod_func sign64 (2 ^ 64 - 7) minus_two (some 0) ≡ returns success (some (2 ^ 64 - 1))
unfolding rem_ℤ
mod_func-exact_example = mod_func-exact sign64 (2 ^ 64 - 7) minus_two 0 (omega arith) (omega arith)

bit_funcs_digits_example :
    (Digits sign64 and_func 9 10 0 (λ r i. digit r i ≡ min (digit 9 i) (digit 10 i))
      × Digits sign64 or_func 9 10 0 (λ r i. digit r i ≡ max (digit 9 i) (digit 10 i))
      × Digits sign64 xor_func 9 10 0 (λ r i. digit r i ≡ (digit 9 i + digit 10 i) % 2))
    × (Digits sign64
          (shift_l_func sign64)
          9
          62
          0
          (λ r i. digit r i ≡ (if ltb i 62 then 0 else digit 9 (i - 62)))
        × Digits sign64 (shift_r_func sign64) 9 62 0 (λ r i. digit r i ≡ digit 9 (62 + i)))
    × (Digits sign64 (rotate_l_func sign64) 9 62 0 (λ r i. digit r ((i + 62) % 64) ≡ digit 9 i)
        × Digits sign64 (rotate_r_func sign64) 9 62 0 (λ r i. digit r i ≡ digit 9 ((i + 62) % 64)))
bit_funcs_digits_example =
    bit_funcs_digits sign64 9 10 62 0 (omega arith) (omega arith) (omega arith) (omega arith)

rotate_r_func-rotate_l_func_example :
    (r : ℕ) × (rotate_l_func sign64 9 62 (some 0) ≡ returns success (some r))
    × (rotate_r_func sign64 r 62 (some 0) ≡ returns success (some 9))
rotate_r_func-rotate_l_func_example =
    rotate_r_func-rotate_l_func sign64 9 62 0 (omega arith) (omega arith) (omega arith)
