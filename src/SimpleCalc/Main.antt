-- ===== src/SimpleCalc/Main.antt =====
-- `main` of 1_SimpleCalc/src/simple_main.c.
use net_calc.Prelude.{ℕ, Bool, Option, none, some, List}
use net_calc.Prelude.Int.{ℤ}
use net_calc.Words.{Status, success, error, Outcome, returns, undefined}
use net_calc.CalcHandle.Opers.{CString}
use net_calc.CalcHandle.Defs.{Calc}
use net_calc.CalcHandle.Widths.{calc_init_32, set_calc_32, solve_func_32, print_result_32}
use net_calc.SimpleCalc.Convert.{Number, Args, parse_args}

-- What follows each call, the last first: the status that `main` returns, and the number that it
-- has printed.
abbrev pub print_solved : Outcome (Option Calc) → Outcome (Option ℤ)
print_solved undefined = undefined
print_solved (returns error p_calc) = returns error none
print_solved (returns success p_calc) = returns success (print_result_32 p_calc).1

abbrev pub solve_set : Status × Option Calc → Outcome (Option ℤ)
solve_set (error, p_calc) = returns error none
solve_set (success, p_calc) = print_solved (solve_func_32 p_calc)

-- Without memory `err` is still that of `parse_args`.
abbrev pub set_parsed : Args → Option Calc → Outcome (Option ℤ)
set_parsed args none = returns success none
set_parsed args (some calc) = solve_set (set_calc_32 (some calc) args.num1 args.num2 args.p_oper)

abbrev pub after_parse : Bool → Args → Outcome (Option ℤ)
after_parse allocated args = elim (args.err) [
  | error ↦ returns error none
  | success ↦ set_parsed args (calc_init_32 allocated)
]

module _ (strtol : CString → ℕ → Number ℤ) (strtoul : CString → ℕ → Number ℕ) where
  unfoldable pub main : Bool → List CString → Outcome (Option ℤ)
  main allocated argv = after_parse allocated (parse_args strtol strtoul argv 0 0)
