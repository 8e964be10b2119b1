-- ===== src/SimpleCalc/Solve.antt =====
-- What `main` prints.
use net_calc.Prelude.{
  ℕ, ◌-◌, ◌%◌, suc, ◌≡◌, ◌≢◌, ◌≤◌, ◌<◌, ◌⊎◌, ◌∙◌, inl, inr, refl, sym, ap, arith, true, false, ◌||◌,
  Option, some, [], ◌∷◌, ◌==◌, leb, if◌then◌else◌,
}
use net_calc.Prelude.Int.{ℤ, pos}
use net_calc.Words.{Status, success, error, returns, IsWord, num, of_num, fits, int_min}
use net_calc.MathFuncs.Exact.{num-of_num}
use net_calc.MathFuncs.Widths.{sign32}
use net_calc.CalcHandle.Opers.{
  CString, signed_check, unsigned_check, choose_check, translate_op, ops_str, mod64,
}
use net_calc.CalcHandle.Texts.{choose_check-translate_op, translate_op_iff, get_elem?-lt}
use net_calc.CalcHandle.Defs.{
  Calc, set_operands, calc_init, set_calc_file, set_math_func, print_result,
}
use net_calc.CalcHandle.Widths.{set_calc_32, set_translated}
use net_calc.SimpleCalc.Convert.{Number, byte_at, parse_args}
use net_calc.SimpleCalc.Main.{main, after_parse, solve_set, print_solved}
use net_calc.SimpleCalc.Numbers.{Reads, convert-Reads, convert_unsigned-Reads}
use net_calc.SimpleCalc.Stores.{exact_result, exact_result-Stores}
use net_calc.CalcHandle.Solve.{evaluate, solve_if_set, blank, evaluate_lem}

signed_oper :
    (oper : CString) (k : ℕ)
    → translate_op (some oper) 0 ≡ (success, suc k)
    → suc k ≤ 5
    → choose_check (some oper) ≡ signed_check
signed_oper oper k e h = choose_check-translate_op oper ∙ (rw e (ground arith))

unsigned_oper :
    (oper : CString) (k : ℕ)
    → translate_op (some oper) 0 ≡ (success, suc k)
    → 5 < suc k
    → choose_check (some oper) ≡ unsigned_check
unsigned_oper oper k e h = choose_check-translate_op oper ∙ (rw e (ground arith))

solve_set-solve_if_set : (r : Status × Option Calc) → solve_set r ≡ print_solved (solve_if_set r)
solve_set-solve_if_set (error, p_calc) = refl
solve_set-solve_if_set (success, p_calc) = refl

-- An operator of the table is a byte.
oper_byte :
    (oper : CString) (k : ℕ) → translate_op (some oper) 0 ≡ (success, suc k) → suc k % 256 ≡ suc k
oper_byte oper k e =
    let below : suc k - 1 < 12 =
      get_elem?-lt ops_str (suc k - 1) oper ((translate_op_iff oper (suc k)).0 e).1 in
    ground arith

printed :
    (oper : ℕ) (r : ℤ)
    → oper ≤ 5
    → fits sign32 r ≡ true
    → (if leb oper mod64 then num sign32 (of_num sign32 r) else pos (of_num sign32 r)) ≡ r
printed oper r low h = rw (leb-true oper low) (num-of_num sign32 r h)
  where
    leb-true : (n : ℕ) → n ≤ 5 → leb n 5 ≡ true
    leb-true n p = ground arith

module _ (strtol : CString → ℕ → Number ℤ) (strtoul : CString → ℕ → Number ℕ) where
  -- The texts of the operands are read as the words: as signed numbers for an operator up to
  -- MOD64, and else as unsigned numbers without a sign in front.
  abbrev pub AreOperands : ℕ → CString → CString → ℕ → ℕ → Type 0
  AreOperands oper arg1 arg3 w1 w2 =
      ((oper ≤ 5)
        × ((x : ℤ) × Reads strtol arg1 x × (fits sign32 x ≡ true) × (of_num sign32 x ≡ w1))
        × ((y : ℤ) × Reads strtol arg3 y × (fits sign32 y ≡ true) × (of_num sign32 y ≡ w2)))
      ⊎ ((5 < oper)
          × ((byte_at arg1 == b'-' || byte_at arg3 == b'-') ≡ false)
          × (Reads strtoul arg1 w1 × IsWord sign32 w1)
          × (Reads strtoul arg3 w2 × IsWord sign32 w2))

  parse_args-AreOperands :
      (name arg1 oper arg3 : CString) (k w1 w2 : ℕ)
      → translate_op (some oper) 0 ≡ (success, suc k)
      → AreOperands (suc k) arg1 arg3 w1 w2
      → parse_args strtol strtoul (name ∷ arg1 ∷ oper ∷ arg3 ∷ []) 0 0
        ≡ record { err = success; num1 = w1; num2 = w2; p_oper = some oper }
  unfolding parse_args
  parse_args-AreOperands name arg1 oper arg3 k w1 w2 e
        (inl (low, (x, reads_x, x_fits, x_word), (y, reads_y, y_fits, y_word))) =
      rw
        (
          signed_oper oper k e low,
          convert-Reads strtol strtoul arg1 x 0 reads_x x_fits,
          convert-Reads strtol strtoul arg3 y 0 reads_y y_fits,
          x_word,
          y_word,
        )
        refl
  parse_args-AreOperands name arg1 oper arg3 k w1 w2 e
        (inr (high, no_sign, (reads_x, x_word), (reads_y, y_word))) =
      rw
        (
          unsigned_oper oper k e high,
          no_sign,
          convert_unsigned-Reads strtol strtoul arg1 w1 0 reads_x x_word,
          convert_unsigned-Reads strtol strtoul arg3 w2 0 reads_y y_word,
        )
        refl

  -- If the operator's text stands in the table, and strtol (for the operators up to MOD64) or
  -- strtoul (for the others, with no - in front of the texts) reads both operands whole as
  -- numbers that 32 bits hold, then main, with memory for its record, does what setting up and
  -- solving the equation with the operator's number and these words does, as the readers of
  -- files do at 64 bits: it prints the result that is solved, as a signed number up to MOD64 and
  -- else as an unsigned one, returns ERROR where that fails, and is undefined where that is.
  pub main-evaluate :
      (name arg1 oper arg3 : CString) (k w1 w2 : ℕ)
      → translate_op (some oper) 0 ≡ (success, suc k)
      → AreOperands (suc k) arg1 arg3 w1 w2
      → main strtol strtoul true (name ∷ arg1 ∷ oper ∷ arg3 ∷ [])
        ≡ print_solved (evaluate sign32 (suc k) w1 w2)
  unfolding main evaluate calc_init set_calc_32 set_calc_file
  main-evaluate name arg1 oper arg3 k w1 w2 e operands =
      ap (after_parse true) (parse_args-AreOperands name arg1 oper arg3 k w1 w2 e operands)
      ∙ rw (e, set_translated)
          (solve_set-solve_if_set
              (set_operands sign32 w1 w2 (suc k) (set_math_func sign32 (some (suc k)) (some blank)))
            ∙ ap
                (λ o. print_solved (
                  solve_if_set
                    (set_operands sign32 w1 w2 o (set_math_func sign32 (some o) (some blank)))))
                (sym (oper_byte oper k e)))

  -- If strtol reads the two operands of a command line whole as numbers of 32 bits, the
  -- operator's text is one of + - * / %, the exact result of it exists (no division by 0), the
  -- signed type can hold it, it is not INT_MIN and neither is the second operand, then main,
  -- with memory for its record, prints exactly that result and returns 0.
  pub main-exact_result :
      (name arg1 oper arg3 : CString) (k : ℕ) (x y r : ℤ)
      → translate_op (some oper) 0 ≡ (success, suc k)
      → suc k ≤ 5
      → Reads strtol arg1 x
      → Reads strtol arg3 y
      → fits sign32 x ≡ true
      → fits sign32 y ≡ true
      → exact_result (suc k) x y ≡ some r
      → fits sign32 r ≡ true
      → r ≢ int_min sign32
      → y ≢ int_min sign32
      → main strtol strtoul true (name ∷ arg1 ∷ oper ∷ arg3 ∷ []) ≡ returns success (some r)
  unfolding print_result
  main-exact_result name arg1 oper arg3 k x y r is_oper low reads_x reads_y x_fits y_fits e r_fits p
        q =
      let (f, chosen, stores) = exact_result-Stores x y x_fits y_fits (suc k) r e r_fits p q in
      main-evaluate name arg1 oper arg3 k (of_num sign32 x) (of_num sign32 y) is_oper
        (inl (low, (x, reads_x, x_fits, refl), (y, reads_y, y_fits, refl)))
      ∙ rw
          (
            evaluate_lem sign32 (suc k) (of_num sign32 x) (of_num sign32 y),
            oper_byte oper k is_oper,
            chosen,
            stores,
            oper_byte oper k is_oper,
            print_result,
          )
          (ap (λ v. returns success (some v)) (printed (suc k) r low r_fits))
