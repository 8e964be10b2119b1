-- ===== src/CalcHandle/Tests.antt =====
-- Runs of the calculation record, and the theorems at concrete inputs.
use net_calc.Prelude.{◌-◌, ◌^◌, ◌≡◌, refl, arith, true, some, none, [], ◌∷◌}
use net_calc.Prelude.Int.{pos}
use net_calc.Words.{success}
use net_calc.MathFuncs.Widths.{sign64}
use net_calc.CalcHandle.Opers.{translate_op, choose_check, unsigned_check, find_oper, strncmp_equal}
use net_calc.CalcHandle.Defs.{Calc, print_result, calc_init, switch_oper, set_math_func}
use net_calc.CalcHandle.Widths.{set_calc_32}
use net_calc.CalcHandle.Solve.{evaluate, evaluate-hazard, is_undefined}
use net_calc.CalcHandle.Texts.{choose_check-translate_op}

-- A minus one prints as a signed number below the shifts, and as an unsigned one from there on.
abbrev all_ones : Calc
all_ones = record { num1 = 0; num2 = 0; result = 2 ^ 64 - 1; oper = 8; func_ptr = none }

print_unsigned : print_result sign64 (some all_ones) ≡ (success, some (pos (2 ^ 64 - 1)))
unfolding print_result
print_unsigned = refl

sum_of_texts : (set_calc_32 (calc_init true) 3 4 (some (b'+' ∷ []))).0 ≡ success
unfolding set_calc_32 calc_init translate_op find_oper strncmp_equal set_math_func switch_oper
sum_of_texts = refl

evaluate-hazard_example : is_undefined (evaluate sign64 5 3 (2 ^ 63)) ≡ true
evaluate-hazard_example = evaluate-hazard sign64 5 3 (2 ^ 63) (omega arith) (omega arith)

choose_check-translate_op_example : choose_check (some (b'?' ∷ [])) ≡ unsigned_check
unfolding translate_op find_oper strncmp_equal
choose_check-translate_op_example = choose_check-translate_op (b'?' ∷ [])
