-- ===== src/SimpleCalc/Convert.antt =====
-- 1_SimpleCalc/src/cli_handle.c. `strtol` and `strtoul` of the C library are parameters.
use net_calc.Prelude.{ℕ, ◌-◌, ◌^◌, ◌&&◌, ◌||◌, not, Option, none, some, List, [], ◌∷◌}
use net_calc.Prelude.{◌==◌, ltb, if◌then◌else◌}
use net_calc.Prelude.Int.{ℤ, ltb_ℤ, eqb_ℤ}
use net_calc.Words.{Status, success, error, num, of_num, int_max, int_min}
use net_calc.MathFuncs.Widths.{sign32}
use net_calc.CalcHandle.Opers.{CString, Check, check_error, signed_check, unsigned_check}
use net_calc.CalcHandle.Widths.{choose_check_32}

-- What a call of `strtol` or `strtoul` leaves: its value, `errno`, and the text at the end pointer.
pub record Number (A : Type 0) : Type 0 where
  pub value : A
  pub errno : ℕ
  pub rest : CString

abbrev pub base : ℕ
base = 10

-- The byte that a pointer into a text points to: its final zero, if nothing is left.
abbrev pub byte_at : CString → ℕ
byte_at [] = 0
byte_at (c ∷ s) = c

-- The same as a `char`, which is signed.
abbrev pub char_at : CString → ℤ
char_at s = num 7 (byte_at s)

-- What `parse_args` returns, with the numbers and the operator that it leaves.
pub record Args : Type 0 where
  pub err : Status
  pub num1 : ℕ
  pub num2 : ℕ
  pub p_oper : Option CString

-- The conversion of argv[3], and the one of argv[1] before it.
abbrev pub convert_last : Option CString → ℕ → Status × ℕ → Args
convert_last p_oper num1 (err, num2) = record {
  err = err;
  num1 = num1;
  num2 = num2;
  p_oper = p_oper;
}

abbrev pub convert_next : (CString → ℕ → Status × ℕ) → CString → CString → ℕ → Status × ℕ → Args
convert_next convert oper arg3 num2 (error, num1) = record {
  err = error;
  num1 = num1;
  num2 = num2;
  p_oper = some oper;
}
convert_next convert oper arg3 num2 (success, num1) =
    convert_last (some oper) num1 (convert arg3 num2)

module _ (strtol : CString → ℕ → Number ℤ) (strtoul : CString → ℕ → Number ℕ) where
  -- Returns the status and `*p_converted_num`. The tests of ERANGE stand behind the test that
  -- `errno` is 0, and fail.
  unfoldable pub convert_from_string : CString → ℕ → Status × ℕ
  convert_from_string p_str converted =
      let tester = strtol p_str base in
      if not (tester.errno == 0)
      then (error, converted)
      else if ltb_ℤ (int_max sign32) tester.value || ltb_ℤ tester.value (int_min sign32)
      then (error, converted)
      else if eqb_ℤ (char_at tester.rest) tester.value && not (byte_at tester.rest == 0)
      then (error, converted)
      else if not (byte_at tester.rest == 0)
      then (error, converted)
      else (success, of_num sign32 tester.value)

  unfoldable pub convert_from_string_unsigned : CString → ℕ → Status × ℕ
  convert_from_string_unsigned p_str converted =
      let utester = strtoul p_str base in
      if not (utester.errno == 0)
      then (error, converted)
      else if not (byte_at utester.rest == 0)
      then (error, converted)
      else if ltb (2 ^ 32 - 1) utester.value
      then (error, converted)
      else (success, utester.value)

  abbrev pub convert_checked : CString → CString → CString → ℕ → ℕ → Check → Args
  convert_checked arg1 oper arg3 num1 num2 check_error = record {
    err = error;
    num1 = num1;
    num2 = num2;
    p_oper = some oper;
  }
  convert_checked arg1 oper arg3 num1 num2 signed_check =
      convert_next convert_from_string oper arg3 num2 (convert_from_string arg1 num1)
  convert_checked arg1 oper arg3 num1 num2 unsigned_check =
      if byte_at arg1 == b'-' || byte_at arg3 == b'-'
      then record { err = error; num1 = num1; num2 = num2; p_oper = some oper }
      else convert_next convert_from_string_unsigned oper arg3 num2
          (convert_from_string_unsigned arg1 num1)

  -- `argc` is the number of the arguments, and VALID_NUM_ARGS is 4.
  unfoldable pub parse_args : List CString → ℕ → ℕ → Args
  parse_args (name ∷ arg1 ∷ oper ∷ arg3 ∷ []) num1 num2 =
      convert_checked arg1 oper arg3 num1 num2 (choose_check_32 (some oper))
  parse_args argv num1 num2 = record { err = error; num1 = num1; num2 = num2; p_oper = none }
