-- ===== src/MathFuncs/Rotate.antt =====
-- The rotations, digit by digit: a circle of `sign + 1` digits.
use native.Mathlib.Nat.{mod-eq_of_lt, mod-eq-sub-mod}
use native.Mathlib.Decide.{dec_lt}
use net_calc.Prelude.{
  ℕ, suc, ◌+◌, ◌-◌, ◌*◌, ◌/◌, ◌%◌, ◌^◌, ◌≤◌, ◌<◌, ◌≡◌, ap, ◌∙◌, ◌⊎◌, inl, inr, max,
}
use net_calc.Prelude.{some, arith, lt→ltb, bit_or}
use net_calc.Prelude.Bits.{digit, digit-bit_or}
use net_calc.Prelude.Bits.{digit_above}
use net_calc.Prelude.Bits.{bit_or-lt, width-lt}
use net_calc.Words.{undefined, half, IsWord}
use net_calc.MathFuncs.Funcs.{num_bits_minus, rotate_l_func, rotate_r_func}
use net_calc.MathFuncs.Bitwise.{
  Digits, digit_shl, digit_shr, shl-IsWord, shr-IsWord, IsWord-lt, word_pow,
}

module _ (sign : ℕ) where
  num_bits_minus_lem : (n : ℕ) → n < suc sign → num_bits_minus sign n ≡ suc sign - n
  num_bits_minus_lem n h = omega (
    arith,
    width-lt sign,
    mod-eq-sub-mod {n = suc sign + 2 * half sign - n} {m = 2 * half sign} (omega arith),
    mod-eq_of_lt {n = suc sign + 2 * half sign - n - 2 * half sign} {m = 2 * half sign}
        (omega (arith, width-lt sign)),
  )

  -- The two shifts of a rotation put together: `up` moves the digits up by `n`, `down` brings the
  -- top `n` digits to the bottom.
  abbrev joined : ℕ → ℕ → ℕ → ℕ
  joined x n i = max (digit (x * 2 ^ n % (2 * half sign)) i) (digit (x / 2 ^ (suc sign - n)) i)

  joined_low : (x n i : ℕ) → n < suc sign → i < n → joined x n i ≡ digit x (suc sign - n + i)
  joined_low x n i h p =
      ground (arith, digit_shl sign x n i (omega arith), digit_shr sign x (suc sign - n) i)

  joined_high :
      (x n i : ℕ)
      → IsWord sign x
      → n < suc sign
      → i < suc sign
      → n ≤ i
      → joined x n i ≡ digit x (i - n)
  joined_high x n i w h b p = ground (
    arith,
    digit_shl sign x n i b,
    digit_shr sign x (suc sign - n) i,
    digit_above (suc sign) x (suc sign - n + i) (word_pow sign x w) (omega arith),
  )

  rotated-IsWord :
      (x n : ℕ)
      → IsWord sign x
      → IsWord sign (bit_or (x * 2 ^ n % (2 * half sign)) (x / 2 ^ (suc sign - n)))
  rotated-IsWord x n w = IsWord-lt sign _ (
      bit_or-lt (suc sign) _ _ (word_pow sign _ (shl-IsWord sign x n))
        (word_pow sign _ (shr-IsWord sign x (suc sign - n) w)))

  rotated-IsWord' :
      (x n : ℕ)
      → IsWord sign x
      → IsWord sign (bit_or (x / 2 ^ n) (x * 2 ^ (suc sign - n) % (2 * half sign)))
  rotated-IsWord' x n w = IsWord-lt sign _ (
      bit_or-lt (suc sign) _ _ (word_pow sign _ (shr-IsWord sign x n w))
        (word_pow sign _ (shl-IsWord sign x (suc sign - n))))

  past_end : (k n : ℕ) → suc sign ≤ k → k < suc sign + suc sign → k % suc sign ≡ k - suc sign
  past_end k n p q =
      mod-eq-sub-mod {n = k} {m = suc sign} p
      ∙ mod-eq_of_lt {n = k - suc sign} {m = suc sign} (omega arith)

  joined_round :
      (x n i : ℕ)
      → IsWord sign x
      → n < suc sign
      → i < suc sign
      → joined x n ((i + n) % suc sign) ≡ digit x i
  joined_round x n i w h b = elim (dec_lt (i + n) (suc sign)) [
    | yes p ↦
        rw (mod-eq_of_lt p)
          (joined_high x n (i + n) w h p (omega arith) ∙ at (i + n - n) (omega arith))
    | no p ↦ rw (past_end (i + n) n (omega arith) (omega arith)) (
        joined_low x n (i + n - suc sign) h (omega arith)
        ∙ at (suc sign - n + (i + n - suc sign)) (omega arith))
  ]
    where
      at : (j : ℕ) → j ≡ i → digit x j ≡ digit x i
      at j e = ap (digit x) e

  joined_back :
      (x n i : ℕ)
      → IsWord sign x
      → n < suc sign
      → i < suc sign
      → max (digit (x / 2 ^ n) i) (digit (x * 2 ^ (suc sign - n) % (2 * half sign)) i)
        ≡ digit x ((i + n) % suc sign)
  joined_back x n i w h b = elim (dec_lt (i + n) (suc sign)) [
    | yes p ↦
        rw
          (
            mod-eq_of_lt p,
            digit_shr sign x n i,
            digit_shl sign x (suc sign - n) i b,
            lt→ltb i (suc sign - n) (omega arith),
          )
          (omega (arith, at (n + i) (i + n) (omega arith)))
    | no p ↦ rw (past_end (i + n) n (omega arith) (omega arith)) (
        ground (
          arith,
          digit_shr sign x n i,
          digit_above (suc sign) x (n + i) (word_pow sign x w) (omega arith),
          digit_shl sign x (suc sign - n) i b,
          at (i - (suc sign - n)) (i + n - suc sign) (omega arith),
        ))
  ]
    where
      at : (j k : ℕ) → j ≡ k → digit x j ≡ digit x k
      at j k e = ap (digit x) e

  -- For a word and a count above 0 and below the width, rotate_l_func succeeds with a word whose
  -- digit at place i + n, counted round the width, is the operand's digit at place i.
  pub rotate_l_func_digits :
      (x n old : ℕ)
      → IsWord sign x
      → 0 < n
      → n < suc sign
      → Digits sign (rotate_l_func sign) x n old (λ r i. digit r ((i + n) % suc sign) ≡ digit x i)
  unfolding rotate_l_func
  rotate_l_func_digits x n old w z h = (
    bit_or (x * 2 ^ n % (2 * half sign)) (x / 2 ^ (suc sign - n)),
    ground (arith, num_bits_minus_lem n h),
    rotated-IsWord x n w,
    λ i b.
        digit-bit_or (x * 2 ^ n % (2 * half sign)) (x / 2 ^ (suc sign - n)) ((i + n) % suc sign)
        ∙ joined_round x n i w h b,
  )

  -- For a word and a count above 0 and below the width, rotate_r_func succeeds with a word whose
  -- digit at place i is the operand's digit at place i + n, counted round the width.
  pub rotate_r_func_digits :
      (x n old : ℕ)
      → IsWord sign x
      → 0 < n
      → n < suc sign
      → Digits sign (rotate_r_func sign) x n old (λ r i. digit r i ≡ digit x ((i + n) % suc sign))
  unfolding rotate_r_func
  rotate_r_func_digits x n old w z h = (
    bit_or (x / 2 ^ n) (x * 2 ^ (suc sign - n) % (2 * half sign)),
    ground (arith, num_bits_minus_lem n h),
    rotated-IsWord' x n w,
    λ i b.
        digit-bit_or (x / 2 ^ n) (x * 2 ^ (suc sign - n) % (2 * half sign)) i
        ∙ joined_back x n i w h b,
  )

  -- For a word and a count above 0 and below the width, rotate_l_func and rotate_r_func succeed
  -- with words whose digits are the operand's moved round the width: the digit at place i + n,
  -- counted round, of the first is the operand's digit at place i, and the digit at place i of
  -- the second is the operand's at place i + n.
  pub rotate_funcs_digits :
      (x n old : ℕ)
      → IsWord sign x
      → 0 < n
      → n < suc sign
      → Digits sign (rotate_l_func sign) x n old (λ r i. digit r ((i + n) % suc sign) ≡ digit x i)
        × Digits sign (rotate_r_func sign) x n old (λ r i. digit r i ≡ digit x ((i + n) % suc sign))
  rotate_funcs_digits x n old w z h =
      (rotate_l_func_digits x n old w z h, rotate_r_func_digits x n old w z h)

  num_bits_minus_zero : (n : ℕ) → n ≡ 0 → num_bits_minus sign n ≡ suc sign
  num_bits_minus_zero n z = omega (
    arith,
    width-lt sign,
    mod-eq-sub-mod {n = suc sign + 2 * half sign - n} {m = 2 * half sign} (omega arith),
    mod-eq_of_lt {n = suc sign + 2 * half sign - n - 2 * half sign} {m = 2 * half sign}
        (omega (arith, width-lt sign)),
  )

  -- A rotation by 0, or by a word that is at least the width, shifts by the width or more and is
  -- undefined in both directions.
  pub rotate_undefined :
      (x n old : ℕ)
      → IsWord sign n
      → (n ≡ 0) ⊎ (suc sign ≤ n)
      → (rotate_l_func sign x n (some old) ≡ undefined)
        × (rotate_r_func sign x n (some old) ≡ undefined)
  unfolding rotate_l_func rotate_r_func
  rotate_undefined x n old w (inl z) =
      (ground (arith, num_bits_minus_zero n z), ground (arith, num_bits_minus_zero n z))
  rotate_undefined x n old w (inr b) = ground arith
