-- ===== src/CalcHandle/Solve.antt =====
-- What `calc_init`, `set_calc_file` and `solve_func` do together.
use net_calc.Prelude.{
  ℕ, suc, ◌%◌, ◌≡◌, refl, ◌∙◌, Bool, true, false, ◌||◌, Option, none, some, arith,
}
use net_calc.Prelude.{◌==◌, leb, Option-cases, Bool-cases, inl, inr, if◌then◌else◌}
use net_calc.Prelude.Int.{pos, ◌-ℤ◌, eqb_ℤ}
use net_calc.Words.{Status, success, error, Outcome, returns, undefined, num, half, IsWord}
use net_calc.MathFuncs.Exact.{add_func-exact, sub_func-exact, mult_func-exact}
use net_calc.MathFuncs.Divide.{div_func-exact, mod_func-exact}
use native.Mathlib.Nat.{one-le-pow}
use net_calc.MathFuncs.Funcs.{MathFunc, add_func, sub_func, mult_func, div_func, mod_func}
use net_calc.MathFuncs.Funcs.{shift_l_func, shift_r_func, and_func, or_func, xor_func}
use net_calc.MathFuncs.Funcs.{rotate_l_func, rotate_r_func}
use net_calc.MathFuncs.Rotate.{rotate_undefined, rotate_l_func_digits, rotate_r_func_digits}
use net_calc.CalcHandle.Defs.{
  Calc, calc_init, set_calc_file, set_math_func, switch_oper, solve_func, write_result,
}

abbrev pub is_undefined {ℓ} : {A : Type ℓ} → Outcome A → Bool
is_undefined undefined = true
is_undefined (returns err a) = false

-- The record after `set_calc_file` on a fresh one.
abbrev pub filled : ℕ → ℕ → ℕ → MathFunc → Calc
filled oper x y f = record { num1 = x; num2 = y; result = 0; oper = oper; func_ptr = some f }

abbrev pub blank : Calc
blank = record { num1 = 0; num2 = 0; result = 0; oper = 0; func_ptr = none }

abbrev pub solve_if_set : Status × Option Calc → Outcome (Option Calc)
solve_if_set (success, p_calc) = solve_func p_calc
solve_if_set (error, p_calc) = returns error p_calc

module _ (sign : ℕ) where
  -- The steps that the file and the network readers take for an equation.
  unfoldable pub evaluate : ℕ → ℕ → ℕ → Outcome (Option Calc)
  unfolding calc_init set_calc_file set_math_func solve_func
  evaluate oper x y = solve_if_set (set_calc_file sign (calc_init true) x y (some oper))

  -- The operands for which C leaves the chosen function undefined.
  abbrev pub hazard : ℕ → ℕ → ℕ → Bool
  hazard oper x y =
      if oper == 2
      then eqb_ℤ (num sign x -ℤ num sign y) (pos (half sign))
      else if oper == 5
      then y == half sign
      else if oper == 6 || oper == 7
      then leb (suc sign) y
      else if oper == 11 || oper == 12
      then y == 0 || leb (suc sign) y
      else false

  -- Setting up a fresh record for an equation and solving it returns ERROR with the blank record
  -- if the operator byte is none of 1 to 12, and else runs the operator's function on the two
  -- operands with result word 0 and stores what it stores in the record that holds the operands
  -- and the operator.
  pub evaluate_lem :
      (oper x y : ℕ)
      → evaluate oper x y ≡ elim (switch_oper sign (oper % 256)) [
        | none ↦ returns error (some blank)
        | some f ↦ write_result (filled (oper % 256) x y f) (f x y (some 0))
      ]
  unfolding evaluate
  evaluate_lem oper x y = elim (Option-cases (switch_oper sign (oper % 256))) [
    | inl e ↦ rw (e, evaluate, set_calc_file, set_math_func)
    | inr (f, e) ↦ rw (e, evaluate, set_calc_file, set_math_func)
  ]

  abbrev runs_undefined : Option MathFunc → ℕ → ℕ → Bool
  runs_undefined p_f x y = elim p_f [ none ↦ false | some f ↦ is_undefined (f x y (some 0)) ]

  module _ (x y : ℕ) (x_word : IsWord sign x) (y_word : IsWord sign y) where
    add_undefined : is_undefined (add_func sign x y (some 0)) ≡ false
    add_undefined = ground (arith, add_func-exact sign x y 0 x_word y_word)

    mult_undefined : is_undefined (mult_func sign x y (some 0)) ≡ false
    mult_undefined = ground (arith, mult_func-exact sign x y 0 x_word y_word)

    div_undefined : is_undefined (div_func sign x y (some 0)) ≡ false
    div_undefined = ground (arith, div_func-exact sign x y 0 x_word y_word)

    sub_undefined :
        is_undefined (sub_func sign x y (some 0))
        ≡ eqb_ℤ (num sign x -ℤ num sign y) (pos (half sign))
    sub_undefined = ground (arith, sub_func-exact sign x y 0 x_word y_word)

    mod_undefined : is_undefined (mod_func sign x y (some 0)) ≡ (y == half sign)
    mod_undefined = ground (arith, mod_func-exact sign x y 0 x_word y_word, one-le-pow sign 2)

    shift_undefined :
        (is_undefined (shift_l_func sign x y (some 0)) ≡ leb (suc sign) y)
        × (is_undefined (shift_r_func sign x y (some 0)) ≡ leb (suc sign) y)
    unfolding shift_l_func shift_r_func
    shift_undefined = (ground arith, ground arith)

    bitwise_undefined :
        (is_undefined (and_func x y (some 0)) ≡ false)
        × (is_undefined (or_func x y (some 0)) ≡ false)
        × (is_undefined (xor_func x y (some 0)) ≡ false)
    unfolding and_func or_func xor_func
    bitwise_undefined = (refl, refl, refl)

    rotate_bad :
        (y == 0 || leb (suc sign) y) ≡ true
        → (is_undefined (rotate_l_func sign x y (some 0)) ≡ true)
          × (is_undefined (rotate_r_func sign x y (some 0)) ≡ true)
    rotate_bad e = ground (arith, rotate_undefined sign x y 0 y_word (ground arith))

    rotate_good :
        (y == 0 || leb (suc sign) y) ≡ false
        → (is_undefined (rotate_l_func sign x y (some 0)) ≡ false)
          × (is_undefined (rotate_r_func sign x y (some 0)) ≡ false)
    rotate_good e =
        let (l, l_returns, _, _) =
          rotate_l_func_digits sign x y 0 x_word (ground arith) (ground arith) in
        let (r, r_returns, _, _) =
          rotate_r_func_digits sign x y 0 x_word (ground arith) (ground arith) in
        (rw l_returns, rw r_returns)

    runs_undefined_lem : (oper : ℕ) → runs_undefined (switch_oper sign oper) x y ≡ hazard oper x y
    unfolding switch_oper
    runs_undefined_lem oper = elim (Bool-cases (y == 0 || leb (suc sign) y)) [
      | inl bad ↦ ground (
        arith,
        add_undefined,
        mult_undefined,
        div_undefined,
        sub_undefined,
        mod_undefined,
        shift_undefined,
        bitwise_undefined,
        rotate_bad bad,
      )
      | inr good ↦ ground (
        arith,
        add_undefined,
        mult_undefined,
        div_undefined,
        sub_undefined,
        mod_undefined,
        shift_undefined,
        bitwise_undefined,
        rotate_good good,
      )
    ]

  write_undefined :
      (calc : Calc) (o : Outcome (Option ℕ)) → is_undefined (write_result calc o) ≡ is_undefined o
  write_undefined calc undefined = refl
  write_undefined calc (returns err none) = refl
  write_undefined calc (returns err (some r)) = refl

  -- For two words and any operator byte, setting up and solving an equation is undefined in C
  -- exactly for these operands: a subtraction whose exact value is INT_MAX + 1, a remainder by
  -- INT_MIN, a shift by the width or more, a rotation by 0 or by the width or more. Every other
  -- equation returns.
  pub evaluate-hazard :
      (oper x y : ℕ)
      → IsWord sign x
      → IsWord sign y
      → is_undefined (evaluate oper x y) ≡ hazard (oper % 256) x y
  evaluate-hazard oper x y p q =
      rw (evaluate_lem oper x y)
        (by_switch (switch_oper sign (oper % 256)) ∙ runs_undefined_lem x y p q (oper % 256))
    where
      by_switch :
          (p_f : Option MathFunc)
          → is_undefined (elim p_f [
            | none ↦ returns error (some blank)
            | some f ↦ write_result (filled (oper % 256) x y f) (f x y (some 0))
          ])
            ≡ runs_undefined p_f x y
      by_switch none = refl
      by_switch (some f) = write_undefined (filled (oper % 256) x y f) (f x y (some 0))
