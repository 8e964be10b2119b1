-- ===== src/CalcHandle/Defs.antt =====
-- The record `struct calc` of 0_Common/src/calc_handle.c and the functions on it, at every width:
-- `sign` is 63 there and 31 in calc_handle_thirty_two.c.
use net_calc.Prelude.{ℕ, ◌%◌, Bool, true, false, Option, none, some}
use net_calc.Prelude.{◌==◌, leb, if◌then◌else◌}
use net_calc.Prelude.Int.{ℤ, pos}
use net_calc.Words.{Status, success, error, Outcome, returns, undefined, num}
use net_calc.MathFuncs.Funcs.{MathFunc, add_func, sub_func, mult_func, div_func, mod_func}
use net_calc.MathFuncs.Funcs.{shift_l_func, shift_r_func, and_func, or_func, xor_func}
use net_calc.MathFuncs.Funcs.{rotate_l_func, rotate_r_func}
use net_calc.CalcHandle.Opers.{mod64}

-- The unions are words; `func_ptr` is `none` for NULL. `oper` is never negative: it comes from a
-- cast to unsigned char or from an index of the table.
pub record Calc : Type 0 where
  pub num1 : ℕ
  pub num2 : ℕ
  pub result : ℕ
  pub oper : ℕ
  pub func_ptr : Option MathFunc

-- `calloc`, or NULL where it fails
unfoldable pub calc_init : Bool → Option Calc
calc_init false = none
calc_init true = some (record { num1 = 0; num2 = 0; result = 0; oper = 0; func_ptr = none })

module _ (sign : ℕ) where
  -- The cases of the switch.
  unfoldable pub switch_oper : ℕ → Option MathFunc
  switch_oper oper =
      if oper == 1
      then some (add_func sign)
      else if oper == 2
      then some (sub_func sign)
      else if oper == 3
      then some (mult_func sign)
      else if oper == 4
      then some (div_func sign)
      else if oper == 5
      then some (mod_func sign)
      else if oper == 6
      then some (shift_l_func sign)
      else if oper == 7
      then some (shift_r_func sign)
      else if oper == 8
      then some and_func
      else if oper == 9
      then some or_func
      else if oper == 10
      then some xor_func
      else if oper == 11
      then some (rotate_l_func sign)
      else if oper == 12
      then some (rotate_r_func sign)
      else none

  -- Returns the status and the record behind `p_calc_var`.
  unfoldable pub set_math_func : Option ℕ → Option Calc → Status × Option Calc
  set_math_func p_oper none = (error, none)
  set_math_func none (some calc) = (error, some calc)
  set_math_func (some oper) (some calc) = elim (switch_oper oper) [
    | none ↦ (error, some calc)
    | some f ↦ (success, some (record calc { func_ptr = some f }))
  ]

  -- The operands are signed there and are stored as words.
  abbrev pub set_operands : ℕ → ℕ → ℕ → Status × Option Calc → Status × Option Calc
  set_operands operand1 operand2 rep_op (error, p_calc) = (error, p_calc)
  set_operands operand1 operand2 rep_op (success, none) = (success, none)
  set_operands operand1 operand2 rep_op (success, some calc) =
      (success, some (record calc { num1 = operand1; num2 = operand2; oper = rep_op }))

  -- `*p_oper` is an int8_t, read as an unsigned char.
  unfoldable pub set_calc_file : Option Calc → ℕ → ℕ → Option ℕ → Status × Option Calc
  set_calc_file none operand1 operand2 p_oper = (error, none)
  set_calc_file (some calc) operand1 operand2 none = (error, some calc)
  set_calc_file (some calc) operand1 operand2 (some oper) =
      let rep_op = oper % 256 in
      set_operands operand1 operand2 rep_op (set_math_func (some rep_op) (some calc))

-- `func_ptr` writes into the record's own `result`.
abbrev pub write_result : Calc → Outcome (Option ℕ) → Outcome (Option Calc)
write_result calc undefined = undefined
write_result calc (returns err none) = returns err (some calc)
write_result calc (returns err (some r)) = returns err (some (record calc { result = r }))

unfoldable pub solve_func : Option Calc → Outcome (Option Calc)
solve_func none = returns error none
solve_func (some calc) = elim (calc.func_ptr) [
  | none ↦ returns error (some calc)
  | some f ↦ write_result calc (f calc.num1 calc.num2 (some calc.result))
]

-- What `print_result` prints: the result as a signed or as an unsigned number.
unfoldable pub print_result : ℕ → Option Calc → Status × Option ℤ
print_result sign none = (error, none)
print_result sign (some calc) =
    (success, some (if leb calc.oper mod64 then num sign calc.result else pos calc.result))
