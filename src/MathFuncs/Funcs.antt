-- ===== src/MathFuncs/Funcs.antt =====
-- The functions of 0_Common/src/math_funcs.c, at every width: `sign` is 63 there.
-- A function takes the two operands as words and what `p_result` points to, `none` for NULL. It
-- returns its status with what `p_result` points to then. Where C leaves an expression undefined, so
-- is the call. Messages to the terminal are left out.
use net_calc.Prelude.{ℕ, suc, ◌+◌, ◌-◌, ◌*◌, ◌/◌, ◌%◌, ◌^◌, Option, none, some}
use net_calc.Prelude.{bit_and, bit_or, bit_xor, ltb, if◌then◌else◌}
use net_calc.Prelude.Int.{ℤ, pos, ◌+ℤ◌, ◌-ℤ◌, ◌*ℤ◌, rem_ℤ, ltb_ℤ, eqb_ℤ}
use net_calc.Words.{Status, success, error, Outcome, returns, ◌>>=◌}
use net_calc.Words.{half, num, of_num, signed}
use net_calc.MathFuncs.Validate.{
  validate_add, validate_sub, validate_multi, validate_divide, divide,
}

abbrev pub MathFunc : Type 0
MathFunc = ℕ → ℕ → Option ℕ → Outcome (Option ℕ)

module _ (sign : ℕ) where
  -- `p_result->num = value` after a guard: the value is computed only if the guard passed.
  abbrev pub store_num : Option ℤ → ℕ → Status → Outcome (Option ℕ)
  store_num value old error = returns error (some old)
  store_num value old success = do v ← value; returns success (some (of_num sign v))

  unfoldable pub add_func : MathFunc
  add_func num1 num2 none = returns error none
  add_func num1 num2 (some old) = do
    err ← validate_add sign (num sign num1) (num sign num2)
    store_num (signed sign (num sign num1 +ℤ num sign num2)) old err

  unfoldable pub sub_func : MathFunc
  sub_func num1 num2 none = returns error none
  sub_func num1 num2 (some old) = do
    err ← validate_sub sign (num sign num1) (num sign num2)
    store_num (signed sign (num sign num1 -ℤ num sign num2)) old err

  unfoldable pub mult_func : MathFunc
  mult_func num1 num2 none = returns error none
  mult_func num1 num2 (some old) = do
    err ← validate_multi sign (num sign num1) (num sign num2)
    store_num (signed sign (num sign num1 *ℤ num sign num2)) old err

  unfoldable pub div_func : MathFunc
  div_func num1 num2 none = returns error none
  div_func num1 num2 (some old) =
      store_num (divide sign (num sign num1) (num sign num2)) old
        (validate_divide sign (num sign num1) (num sign num2))

  -- `a % b` on the signed type: undefined where `a / b` is.
  abbrev pub remainder : ℤ → ℤ → Option ℤ
  remainder a b = elim (divide sign a b) [ none ↦ none | some q ↦ some (rem_ℤ a b) ]

  -- `llabs`, undefined where the type cannot hold the absolute value
  abbrev pub llabs : ℤ → Option ℤ
  llabs v = if ltb_ℤ v (pos 0) then signed sign (pos 0 -ℤ v) else some v

  unfoldable pub mod_func : MathFunc
  mod_func num1 num2 none = returns error none
  mod_func num1 num2 (some old) =
      if eqb_ℤ (num sign num2) (pos 0) then returns error (some old) else do
        divisor ← llabs (num sign num2)
        store_num (remainder (num sign num1) divisor) old success

  -- `<<` and `>>` on the unsigned type: undefined from its width on
  abbrev pub shl : ℕ → ℕ → Option ℕ
  shl x n = if ltb n (suc sign) then some (x * 2 ^ n % (2 * half sign)) else none

  abbrev pub shr : ℕ → ℕ → Option ℕ
  shr x n = if ltb n (suc sign) then some (x / 2 ^ n) else none

  -- NUM_BITS - n, on the unsigned type
  abbrev pub num_bits_minus : ℕ → ℕ
  num_bits_minus n = (suc sign + 2 * half sign - n) % (2 * half sign)

  unfoldable pub shift_l_func : MathFunc
  shift_l_func num1 num2 none = returns error none
  shift_l_func num1 num2 (some old) = do unum ← shl num1 num2; returns success (some unum)

  unfoldable pub shift_r_func : MathFunc
  shift_r_func num1 num2 none = returns error none
  shift_r_func num1 num2 (some old) = do unum ← shr num1 num2; returns success (some unum)

  unfoldable pub rotate_l_func : MathFunc
  rotate_l_func num1 num2 none = returns error none
  rotate_l_func num1 num2 (some old) = do
    up ← shl num1 num2
    down ← shr num1 (num_bits_minus num2)
    returns success (some (bit_or up down))

  unfoldable pub rotate_r_func : MathFunc
  rotate_r_func num1 num2 none = returns error none
  rotate_r_func num1 num2 (some old) = do
    down ← shr num1 num2
    up ← shl num1 (num_bits_minus num2)
    returns success (some (bit_or down up))

unfoldable pub and_func : MathFunc
and_func num1 num2 none = returns error none
and_func num1 num2 (some old) = returns success (some (bit_and num1 num2))

unfoldable pub or_func : MathFunc
or_func num1 num2 none = returns error none
or_func num1 num2 (some old) = returns success (some (bit_or num1 num2))

unfoldable pub xor_func : MathFunc
xor_func num1 num2 none = returns error none
xor_func num1 num2 (some old) = returns success (some (bit_xor num1 num2))
