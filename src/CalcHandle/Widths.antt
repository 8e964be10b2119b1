-- ===== src/CalcHandle/Widths.antt =====
-- 0_Common/src/calc_handle_thirty_two.c: the functions of `Defs` and `Opers` at 32 bits, and
-- `set_calc_32`, which calc_handle.c has in a comment.
use net_calc.Prelude.{ℕ, Bool, Option, none, some}
use net_calc.Prelude.Int.{ℤ}
use net_calc.Words.{Status, success, error, Outcome}
use net_calc.MathFuncs.Widths.{sign32}
use net_calc.CalcHandle.Opers.{CString, Check, translate_op, choose_check}
use net_calc.CalcHandle.Defs.{
  Calc, calc_init, set_math_func, set_operands, solve_func, print_result,
}

abbrev pub calc_init_32 : Bool → Option Calc
calc_init_32 = calc_init

abbrev pub set_math_func_32 : Option ℕ → Option Calc → Status × Option Calc
set_math_func_32 = set_math_func sign32

abbrev pub solve_func_32 : Option Calc → Outcome (Option Calc)
solve_func_32 = solve_func

abbrev pub choose_check_32 : Option CString → Check
choose_check_32 = choose_check

abbrev pub translate_op_32 : Option CString → ℕ → Status × ℕ
translate_op_32 = translate_op

abbrev pub print_result_32 : Option Calc → Status × Option ℤ
print_result_32 = print_result sign32

-- What follows the translation of the operator's text.
abbrev pub set_translated : Calc → ℕ → ℕ → Status × ℕ → Status × Option Calc
set_translated calc operand1 operand2 (error, rep_op) = (error, some calc)
set_translated calc operand1 operand2 (success, rep_op) =
    set_operands sign32 operand1 operand2 rep_op (set_math_func_32 (some rep_op) (some calc))

unfoldable pub set_calc_32 : Option Calc → ℕ → ℕ → Option CString → Status × Option Calc
set_calc_32 none operand1 operand2 p_oper = (error, none)
set_calc_32 (some calc) operand1 operand2 none = (error, some calc)
set_calc_32 (some calc) operand1 operand2 (some oper) =
    set_translated calc operand1 operand2 (translate_op_32 (some oper) 0)
