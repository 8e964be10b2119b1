-- ===== src/SimpleCalc/Tests.antt =====
-- Command lines at concrete texts, with a reader of decimal numbers for `strtol` and `strtoul`.
use net_calc.Prelude.{◌≡◌, ◌↔◌, inr, refl, arith, true, false, some, none, [], ◌∷◌}
use net_calc.Prelude.Int.{ℤ, pos, negsuc, ◌-ℤ◌}
use net_calc.Words.{success, error, returns, fits, of_num}
use net_calc.MathFuncs.Widths.{sign32}
use net_calc.CalcHandle.Opers.{
  CString, translate_op, find_oper, strncmp_equal, choose_check, count_until,
}
use net_calc.CalcHandle.Defs.{calc_init}
use net_calc.CalcHandle.Solve.{evaluate}
use net_calc.SimpleCalc.Convert.{convert_from_string, parse_args}
use net_calc.SimpleCalc.Samples.{read_unsigned, read_signed}
use net_calc.SimpleCalc.Main.{main, print_solved}
use net_calc.SimpleCalc.Numbers.{Reads, convert_from_string_iff}
use net_calc.SimpleCalc.Solve.{main-evaluate, main-exact_result}

abbrev name : CString
name = b's' ∷ []

abbrev seven : CString
seven = b'7' ∷ []

abbrev minus_twelve : CString
minus_twelve = b'-' ∷ b'1' ∷ b'2' ∷ []

abbrev ten : CString
ten = b'1' ∷ b'0' ∷ []

-- A text with no digits is taken for 0.
no_digits : convert_from_string read_signed read_unsigned [] 5 ≡ (success, 0)
unfolding convert_from_string
no_digits = refl

letters_behind : convert_from_string read_signed read_unsigned (b'1' ∷ b'x' ∷ []) 5 ≡ (error, 5)
unfolding convert_from_string
letters_behind = refl

two_arguments : main read_signed read_unsigned true (name ∷ seven ∷ []) ≡ returns error none
unfolding main parse_args
two_arguments = refl

-- Without memory nothing is printed, and the program ends with 0.
no_memory :
    main read_signed read_unsigned false (name ∷ seven ∷ (b'+' ∷ []) ∷ minus_twelve ∷ [])
    ≡ returns success none
unfolding main parse_args choose_check count_until convert_from_string calc_init ◌-ℤ◌ strncmp_equal
no_memory = refl

-- 7 - -12
main-exact_result_example :
    main read_signed read_unsigned true (name ∷ seven ∷ (b'-' ∷ []) ∷ minus_twelve ∷ [])
    ≡ returns success (some (pos 19))
unfolding ◌-ℤ◌ translate_op find_oper strncmp_equal
main-exact_result_example =
    main-exact_result read_signed read_unsigned name seven (b'-' ∷ []) minus_twelve 1 (pos 7)
      (negsuc 11) (pos 19) refl (omega arith) refl refl refl refl refl refl (λ e. cc) (λ e. cc)

convert_from_string_iff_example :
    (convert_from_string read_signed read_unsigned seven 0 ≡ (success, 7))
    ↔ ((v : ℤ) × Reads read_signed seven v × (fits sign32 v ≡ true) × (of_num sign32 v ≡ 7))
convert_from_string_iff_example = convert_from_string_iff read_signed read_unsigned seven 0 7 tt

main-evaluate_example :
    main read_signed read_unsigned true (name ∷ seven ∷ (b'&' ∷ []) ∷ ten ∷ [])
    ≡ print_solved (evaluate sign32 8 7 10)
unfolding translate_op find_oper strncmp_equal
main-evaluate_example =
    main-evaluate read_signed read_unsigned name seven (b'&' ∷ []) ten 7 7 10 refl
      (inr (omega arith, refl, (refl, omega arith), (refl, omega arith)))
