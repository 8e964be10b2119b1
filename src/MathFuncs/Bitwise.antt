-- ===== src/MathFuncs/Bitwise.antt =====
-- The unsigned functions, digit by digit.
use native.Mathlib.Nat.{one-le-pow, pow-suc, div-le_self}
use net_calc.Prelude.{
  ℕ, suc, ◌+◌, ◌-◌, ◌*◌, ◌/◌, ◌%◌, ◌^◌, ◌≤◌, ◌<◌, ◌≡◌, refl, ap, ◌∙◌, inl, inr, min, max,
}
use net_calc.Prelude.{Bool-cases, some, arith, if◌then◌else◌, ltb, bit_and, bit_or, bit_xor}
use net_calc.Prelude.Bits.{digit, digit-bit_and, digit-bit_or, digit-bit_xor, digit_mul_low}
use net_calc.Prelude.Bits.{digit_mul_high, digit_mod_low, digit-div-pow}
use net_calc.Prelude.Bits.{bit_and-lt, bit_or-lt, bit_xor-lt, pow-suc'}
use net_calc.Words.{success, returns, half, IsWord}
use net_calc.MathFuncs.Funcs.{shift_l_func, shift_r_func, and_func, or_func, xor_func, MathFunc}

module _ (sign : ℕ) where
  -- A call that succeeds with a word whose digits are as stated.
  abbrev pub Digits : MathFunc → ℕ → ℕ → ℕ → (ℕ → ℕ → Type 0) → Type 0
  Digits f x n old P =
      (r : ℕ) × (f x n (some old) ≡ returns success (some r))
      × IsWord sign r
      × ((i : ℕ) → i < suc sign → P r i)

  pub word_pow : (x : ℕ) → IsWord sign x → x < 2 ^ suc sign
  word_pow x h = omega (arith, pow-suc 2 sign)

  pub digit_shl :
      (x n i : ℕ)
      → i < suc sign
      → digit (x * 2 ^ n % (2 * half sign)) i ≡ (if ltb i n then 0 else digit x (i - n))
  digit_shl x n i h =
      ap (λ (m : ℕ). digit (x * 2 ^ n % m) i) same
      ∙ digit_mod_low (suc sign) (x * 2 ^ n) i h
      ∙ elim (Bool-cases (ltb i n)) [
        | inl low ↦ rw low (digit_mul_low n x i (ground arith))
        | inr high ↦
            rw high (ap (digit (x * 2 ^ n)) (up (ground arith)) ∙ digit_mul_high n x (i - n))
      ]
    where
      same : 2 * half sign ≡ 2 ^ suc sign
      same = omega (arith, pow-suc 2 sign)

      up : n ≤ i → i ≡ n + (i - n)
      up p = omega arith

  pub digit_shr : (x n i : ℕ) → digit (x / 2 ^ n) i ≡ digit x (n + i)
  digit_shr x n i = digit-div-pow n x i

  pub shl-IsWord : (x n : ℕ) → IsWord sign (x * 2 ^ n % (2 * half sign))
  shl-IsWord x n = ground (arith, one-le-pow sign 2)

  pub shr-IsWord : (x n : ℕ) → IsWord sign x → IsWord sign (x / 2 ^ n)
  shr-IsWord x n h = omega (arith, div-le_self x (2 ^ n))

  -- For a count below the width, shift_l_func succeeds with a word whose digits below the count
  -- are 0 and whose others are the operand's digits moved up by it.
  shift_l_func_digits :
      (x n old : ℕ)
      → n < suc sign
      → Digits
          (shift_l_func sign)
          x
          n
          old
          (λ r i. digit r i ≡ (if ltb i n then 0 else digit x (i - n)))
  unfolding shift_l_func
  shift_l_func_digits x n old h =
      (x * 2 ^ n % (2 * half sign), ground arith, shl-IsWord x n, λ i p. digit_shl x n i p)

  -- For a word and a count below the width, shift_r_func succeeds with a word whose digits are
  -- the operand's moved down by the count.
  shift_r_func_digits :
      (x n old : ℕ)
      → IsWord sign x
      → n < suc sign
      → Digits (shift_r_func sign) x n old (λ r i. digit r i ≡ digit x (n + i))
  unfolding shift_r_func
  shift_r_func_digits x n old p h =
      (x / 2 ^ n, ground arith, shr-IsWord x n p, λ i q. digit_shr x n i)

  pub IsWord-lt : (x : ℕ) → x < 2 ^ suc sign → IsWord sign x
  IsWord-lt x h = omega (arith, pow-suc' sign)

  -- For two words, and_func succeeds with a word that has a digit 1 exactly where both operands
  -- have one.
  and_func_digits :
      (x y old : ℕ)
      → IsWord sign x
      → IsWord sign y
      → Digits and_func x y old (λ r i. digit r i ≡ min (digit x i) (digit y i))
  unfolding and_func
  and_func_digits x y old p q = (
    bit_and x y,
    refl,
    IsWord-lt (bit_and x y) (bit_and-lt (suc sign) x y (word_pow x p) (word_pow y q)),
    λ i h. digit-bit_and x y i,
  )

  -- For two words, or_func succeeds with a word that has a digit 1 exactly where an operand has
  -- one.
  or_func_digits :
      (x y old : ℕ)
      → IsWord sign x
      → IsWord sign y
      → Digits or_func x y old (λ r i. digit r i ≡ max (digit x i) (digit y i))
  unfolding or_func
  or_func_digits x y old p q = (
    bit_or x y,
    refl,
    IsWord-lt (bit_or x y) (bit_or-lt (suc sign) x y (word_pow x p) (word_pow y q)),
    λ i h. digit-bit_or x y i,
  )

  -- For two words, xor_func succeeds with a word that has a digit 1 exactly where the operands'
  -- digits differ.
  xor_func_digits :
      (x y old : ℕ)
      → IsWord sign x
      → IsWord sign y
      → Digits xor_func x y old (λ r i. digit r i ≡ (digit x i + digit y i) % 2)
  unfolding xor_func
  xor_func_digits x y old p q = (
    bit_xor x y,
    refl,
    IsWord-lt (bit_xor x y) (bit_xor-lt (suc sign) x y (word_pow x p) (word_pow y q)),
    λ i h. digit-bit_xor x y i,
  )

  -- For two words, and_func, or_func and xor_func succeed with words that have a digit 1 exactly
  -- where both operands have one, where an operand has one, and where the operands' digits
  -- differ.
  pub logic_funcs_digits :
      (x y old : ℕ)
      → IsWord sign x
      → IsWord sign y
      → Digits and_func x y old (λ r i. digit r i ≡ min (digit x i) (digit y i))
        × Digits or_func x y old (λ r i. digit r i ≡ max (digit x i) (digit y i))
        × Digits xor_func x y old (λ r i. digit r i ≡ (digit x i + digit y i) % 2)
  logic_funcs_digits x y old p q =
      (and_func_digits x y old p q, or_func_digits x y old p q, xor_func_digits x y old p q)

  -- For a word and a count below the width, shift_l_func succeeds with a word whose digits below
  -- the count are 0 and whose others are the operand's digits moved up by it, and shift_r_func
  -- with a word whose digits are the operand's moved down by the count.
  pub shift_funcs_digits :
      (x n old : ℕ)
      → IsWord sign x
      → n < suc sign
      → Digits
          (shift_l_func sign)
          x
          n
          old
          (λ r i. digit r i ≡ (if ltb i n then 0 else digit x (i - n)))
        × Digits (shift_r_func sign) x n old (λ r i. digit r i ≡ digit x (n + i))
  shift_funcs_digits x n old w p = (shift_l_func_digits x n old p, shift_r_func_digits x n old w p)
