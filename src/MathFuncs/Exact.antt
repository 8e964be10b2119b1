-- ===== src/MathFuncs/Exact.antt =====
-- The sum, the difference and the product against exact arithmetic.
use native.Mathlib.Nat.{one-le-pow, zero-mul, mul-zero, div-lt_iff_lt-mul, div-le_self}
use net_calc.Prelude.{ℕ, zero, suc, ◌-◌, ◌^◌, ◌≡◌, true, false, Option, some, arith}
use net_calc.Prelude.{if◌then◌else◌}
use net_calc.Prelude.Int.{ℤ, pos, negsuc, ◌+ℤ◌, ◌-ℤ◌, ◌*ℤ◌, quot_ℤ, eqb_ℤ, ltb_ℤ, sub_ℕ}
use net_calc.Words.{success, error, Outcome, returns, num, of_num, fits, IsWord}
use net_calc.Words.{int_min, int_max, signed, undefined, half}
use net_calc.MathFuncs.Validate.{validate_add, validate_sub, validate_multi}
use net_calc.MathFuncs.Funcs.{add_func, sub_func, mult_func}

-- What a caller should see of an operation whose exact value is `v`.
abbrev pub exact : ℕ → ℤ → ℕ → Outcome (Option ℕ)
exact sign v old =
    if fits sign v then returns success (some (of_num sign v)) else returns error (some old)

module _ (sign : ℕ) where
  pub validate_add_lem :
      (a b : ℤ)
      → fits sign a ≡ true
      → fits sign b ≡ true
      → validate_add sign a b ≡ some (if fits sign (a +ℤ b) then success else error)
  unfolding validate_add ◌+ℤ◌ ◌-ℤ◌
  validate_add_lem a b p q = ground (arith, one-le-pow sign 2)

  positive_suc : (a : ℕ) → ltb_ℤ (pos 0) (pos (suc a)) ≡ true
  positive_suc a = ground arith

  suc_not_negative : (a : ℕ) → ltb_ℤ (pos (suc a)) (pos 0) ≡ false
  suc_not_negative a = ground arith

  not_positive : (a : ℕ) → ltb_ℤ (pos 0) (negsuc a) ≡ false
  not_positive a = ground arith

  negsuc_negative : (a : ℕ) → ltb_ℤ (negsuc a) (pos 0) ≡ true
  negsuc_negative a = ground arith

  lower_bound :
      (a : ℕ)
      → fits sign (pos (suc a)) ≡ true
      → signed sign (int_min sign +ℤ pos (suc a)) ≡ some (negsuc (2 ^ sign - 1 - suc a))
  unfolding ◌+ℤ◌
  lower_bound a p = ground (arith, one-le-pow sign 2)

  upper_bound :
      (a : ℕ)
      → fits sign (negsuc a) ≡ true
      → signed sign (int_max sign +ℤ negsuc a) ≡ some (sub_ℕ (2 ^ sign - 1) (suc a))
  unfolding ◌+ℤ◌
  upper_bound a p = ground (arith, one-le-pow sign 2)

  -- The guard is one off on both sides: INT_MAX + 1 passes it, and INT_MIN does not.
  pub validate_sub_lem :
      (a b : ℤ)
      → fits sign a ≡ true
      → fits sign b ≡ true
      → validate_sub sign a b
        ≡ some (
            if eqb_ℤ (a -ℤ b) (pos (half sign))
            then success
            else if eqb_ℤ (a -ℤ b) (int_min sign)
            then error
            else if fits sign (a -ℤ b)
            then success
            else error)
  unfolding validate_sub ◌-ℤ◌
  validate_sub_lem (pos zero) b p q = ground (arith, one-le-pow sign 2)
  validate_sub_lem (pos (suc a)) b p q =
      rw (positive_suc a, lower_bound a p, suc_not_negative a) (ground (arith, one-le-pow sign 2))
  validate_sub_lem (negsuc a) b p q =
      rw (not_positive a, negsuc_negative a, upper_bound a p) (ground (arith, one-le-pow sign 2))

  pub validate_multi_lem :
      (a b : ℤ)
      → fits sign a ≡ true
      → fits sign b ≡ true
      → validate_multi sign a b ≡ some (if fits sign (a *ℤ b) then success else error)
  unfolding validate_multi ◌*ℤ◌ quot_ℤ
  validate_multi_lem (pos zero) (pos b) p q = ground (arith, one-le-pow sign 2, zero-mul b)
  validate_multi_lem (pos (suc a)) (pos zero) p q =
      ground (arith, one-le-pow sign 2, mul-zero (suc a))
  validate_multi_lem (pos (suc a)) (pos (suc b)) p q = ground (
    arith,
    one-le-pow sign 2,
    div-lt_iff_lt-mul {k = suc b} {x = 2 ^ sign - 1} {y = suc a} (omega arith),
    div-le_self (2 ^ sign - 1) (suc b),
  )
  validate_multi_lem (pos zero) (negsuc b) p q = ground (arith, one-le-pow sign 2, zero-mul (suc b))
  validate_multi_lem (pos (suc a)) (negsuc b) p q = ground (
    arith,
    one-le-pow sign 2,
    div-lt_iff_lt-mul {k = suc a} {x = suc (2 ^ sign - 1)} {y = suc b} (omega arith),
    div-le_self (suc (2 ^ sign - 1)) (suc a),
  )
  validate_multi_lem (negsuc a) (pos zero) p q = ground (arith, one-le-pow sign 2, mul-zero (suc a))
  validate_multi_lem (negsuc a) (pos (suc b)) p q = ground (
    arith,
    one-le-pow sign 2,
    div-lt_iff_lt-mul {k = suc b} {x = suc (2 ^ sign - 1)} {y = suc a} (omega arith),
    div-le_self (suc (2 ^ sign - 1)) (suc b),
  )
  validate_multi_lem (negsuc a) (negsuc b) p q = ground (
    arith,
    one-le-pow sign 2,
    div-lt_iff_lt-mul {k = suc b} {x = 2 ^ sign - 1} {y = suc a} (omega arith),
    div-le_self (2 ^ sign - 1) (suc b),
  )

  pub num-fits : (x : ℕ) → IsWord sign x → fits sign (num sign x) ≡ true
  num-fits x h = ground (arith, one-le-pow sign 2)

  pub num-of_num : (v : ℤ) → fits sign v ≡ true → num sign (of_num sign v) ≡ v
  num-of_num v h = ground (arith, one-le-pow sign 2)

  -- For two words and a result pointer that is not NULL, add_func stores the exact sum of the
  -- signed operands and returns SUCCESS if the signed type can hold it, and otherwise returns
  -- ERROR with the result untouched; neither its guard nor its sum overflows.
  pub add_func-exact :
      (x y old : ℕ)
      → IsWord sign x
      → IsWord sign y
      → add_func sign x y (some old) ≡ exact sign (num sign x +ℤ num sign y) old
  unfolding add_func
  add_func-exact x y old p q =
      ground (arith, validate_add_lem (num sign x) (num sign y) (num-fits x p) (num-fits y q))

  -- For two words and a result pointer that is not NULL, sub_func stores the exact difference if
  -- the signed type can hold it and returns ERROR with the result untouched if not, but for two
  -- values: where the exact difference is INT_MAX + 1 the guard lets it pass and C leaves the
  -- subtraction undefined, and where it is INT_MIN, which fits, ERROR is returned.
  pub sub_func-exact :
      (x y old : ℕ)
      → IsWord sign x
      → IsWord sign y
      → sub_func sign x y (some old) ≡ (
          if eqb_ℤ (num sign x -ℤ num sign y) (pos (half sign))
          then undefined
          else if eqb_ℤ (num sign x -ℤ num sign y) (int_min sign)
          then returns error (some old)
          else exact sign (num sign x -ℤ num sign y) old)
  unfolding sub_func
  sub_func-exact x y old p q = ground (
    arith,
    validate_sub_lem (num sign x) (num sign y) (num-fits x p) (num-fits y q),
    one-le-pow sign 2,
  )

  -- For two words and a result pointer that is not NULL, mult_func stores the exact product of
  -- the signed operands and returns SUCCESS if the signed type can hold it, and otherwise
  -- returns ERROR with the result untouched; neither its guard nor its product overflows or
  -- divides by zero.
  pub mult_func-exact :
      (x y old : ℕ)
      → IsWord sign x
      → IsWord sign y
      → mult_func sign x y (some old) ≡ exact sign (num sign x *ℤ num sign y) old
  unfolding mult_func
  mult_func-exact x y old p q =
      ground (arith, validate_multi_lem (num sign x) (num sign y) (num-fits x p) (num-fits y q))
