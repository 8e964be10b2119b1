-- ===== src/MathFuncs/Divide.antt =====
-- Division and the remainder against exact arithmetic.
use native.Mathlib.Nat.{one-le-pow, div-le_self, div-one, div-lt_self, mod-le}
use net_calc.Prelude.{
  ℕ, zero, suc, ◌≡◌, true, false, not, ◌&&◌, none, some, ap, arith, ◌+◌, ◌<◌, ◌%◌,
}
use net_calc.Prelude.{inl, inr, Bool-cases, if◌then◌else◌, ◌==◌}
use net_calc.Prelude.Int.{ℤ, pos, negsuc, ◌-ℤ◌, quot_ℤ, rem_ℤ, eqb_ℤ, sub_ℕ, pos_part, neg_part}
use net_calc.Words.{success, error, returns, num, of_num, fits, IsWord}
use net_calc.Words.{int_min, undefined, half, ◌>>=◌}
use net_calc.MathFuncs.Validate.{validate_divide, divide}
use net_calc.MathFuncs.Funcs.{div_func, mod_func, store_num, remainder, llabs}
use net_calc.MathFuncs.Exact.{exact, num-fits}

module _ (sign : ℕ) where
  -- The only quotient that does not fit is INT_MIN / -1.
  quot_fits :
      (a b : ℤ)
      → fits sign a ≡ true
      → eqb_ℤ b (pos 0) ≡ false
      → fits sign (quot_ℤ a b) ≡ not (eqb_ℤ a (int_min sign) && eqb_ℤ b (negsuc 0))
  unfolding quot_ℤ
  quot_fits (pos a) (pos b) p q = ground (arith, one-le-pow sign 2, div-le_self a b)
  quot_fits (pos a) (negsuc b) p q = ground (arith, one-le-pow sign 2, div-le_self a (suc b))
  quot_fits (negsuc a) (pos b) p q = ground (arith, one-le-pow sign 2, div-le_self (suc a) b)
  quot_fits (negsuc a) (negsuc zero) p q = ground (arith, one-le-pow sign 2, div-one (suc a))
  quot_fits (negsuc a) (negsuc (suc b)) p q = ground (
    arith,
    one-le-pow sign 2,
    div-lt_self {n = suc a} {k = suc (suc b)} (omega arith) (omega arith),
  )

  store_quotient :
      (a b : ℤ) (old : ℕ)
      → fits sign a ≡ true
      → store_num sign (divide sign a b) old (validate_divide sign a b)
        ≡ (if eqb_ℤ b (pos 0) then returns error (some old) else exact sign (quot_ℤ a b) old)
  unfolding validate_divide
  store_quotient a b old p = elim (Bool-cases (eqb_ℤ b (pos 0))) [
    | inl z ↦ rw z
    | inr n ↦ rw (n, quot_fits a b p n) (ground (arith, quot_fits a b p n))
  ]

  eqb-num-zero : (y : ℕ) → IsWord sign y → eqb_ℤ (num sign y) (pos 0) ≡ (y == 0)
  eqb-num-zero y h = ground (arith, one-le-pow sign 2)

  -- For two words and a result pointer that is not NULL, div_func returns ERROR with the result
  -- untouched for divisor 0, and else stores the quotient rounded towards zero with SUCCESS if
  -- the signed type can hold it and returns ERROR with the result untouched if not; it is never
  -- undefined.
  pub div_func-exact :
      (x y old : ℕ)
      → IsWord sign x
      → IsWord sign y
      → div_func sign x y (some old) ≡ (
          if y == 0
          then returns error (some old)
          else exact sign (quot_ℤ (num sign x) (num sign y)) old)
  unfolding div_func
  div_func-exact x y old p q =
      rw (store_quotient (num sign x) (num sign y) old (num-fits sign x p), eqb-num-zero y q)

  abs_lem :
      (b : ℤ)
      → fits sign b ≡ true
      → llabs sign b
        ≡ (if eqb_ℤ b (int_min sign) then none else some (pos (pos_part b + neg_part b)))
  unfolding ◌-ℤ◌
  abs_lem (pos b) q = ground (arith, one-le-pow sign 2)
  abs_lem (negsuc b) q = ground (arith, one-le-pow sign 2)

  rem-abs : (a b : ℤ) → rem_ℤ a (pos (pos_part b + neg_part b)) ≡ rem_ℤ a b
  unfolding rem_ℤ
  rem-abs (pos a) b = ap (λ (m : ℕ). pos (a % m)) (omega arith)
  rem-abs (negsuc a) b = ap (λ (m : ℕ). sub_ℕ 0 (suc a % m)) (omega arith)

  remainder_pos :
      (a : ℤ) (m : ℕ)
      → fits sign a ≡ true
      → 0 < m
      → remainder sign a (pos m) ≡ some (rem_ℤ a (pos m))
  remainder_pos a (suc m) p h = ground (arith, quot_fits a (pos (suc m)) p (ground arith))
  remainder_pos a zero p h = elim h [ ]

  rem_fits : (a b : ℤ) → fits sign a ≡ true → fits sign (rem_ℤ a b) ≡ true
  unfolding rem_ℤ
  rem_fits (pos a) b p = ground (arith, mod-le a (pos_part b + neg_part b))
  rem_fits (negsuc a) b p =
      ground (arith, one-le-pow sign 2, mod-le (suc a) (pos_part b + neg_part b))

  store_remainder :
      (a b : ℤ) (old : ℕ)
      → fits sign a ≡ true
      → fits sign b ≡ true
      → eqb_ℤ b (pos 0) ≡ false
      → (llabs sign b >>= λ d. store_num sign (remainder sign a d) old success) ≡ (
          if eqb_ℤ b (int_min sign)
          then undefined
          else returns success (some (of_num sign (rem_ℤ a b))))
  store_remainder a b old p q n =
      ground (
        arith,
        abs_lem b q,
        rem-abs a b,
        remainder_pos a (pos_part b + neg_part b) p (ground arith),
      )

  eqb-num-min : (y : ℕ) → IsWord sign y → eqb_ℤ (num sign y) (int_min sign) ≡ (y == half sign)
  eqb-num-min y h = ground (arith, one-le-pow sign 2)

  -- For two words and a result pointer that is not NULL, mod_func returns ERROR with the result
  -- untouched for divisor 0, is undefined for divisor INT_MIN, whose absolute value the signed
  -- type cannot hold, and else stores the remainder with the sign of the dividend and returns
  -- SUCCESS.
  pub mod_func-exact :
      (x y old : ℕ)
      → IsWord sign x
      → IsWord sign y
      → mod_func sign x y (some old) ≡ (
          if y == 0
          then returns error (some old)
          else if y == half sign
          then undefined
          else returns success (some (of_num sign (rem_ℤ (num sign x) (num sign y)))))
  unfolding mod_func
  mod_func-exact x y old p q = elim (Bool-cases (eqb_ℤ (num sign y) (pos 0))) [
    | inl z ↦ rw (z, ← eqb-num-zero y q, z)
    | inr n ↦ rw (
      n,
      ← eqb-num-zero y q,
      n,
      store_remainder (num sign x) (num sign y) old (num-fits sign x p) (num-fits sign y q) n,
      eqb-num-min y q,
    )
  ]
