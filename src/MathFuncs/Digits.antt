-- ===== src/MathFuncs/Digits.antt =====
-- What the functions on bits do to the digits of their operands.
use net_calc.Prelude.{ℕ, suc, ◌+◌, ◌-◌, ◌%◌, ◌<◌, ◌≡◌, ◌∙◌, max}
use net_calc.Prelude.{some, min, ltb, if◌then◌else◌}
use net_calc.Prelude.Bits.{digit}
use net_calc.Prelude.Bits.{digit_ext}
use net_calc.Words.{success, returns, IsWord}
use net_calc.MathFuncs.Funcs.{
  and_func, or_func, xor_func, shift_l_func, shift_r_func, rotate_l_func, rotate_r_func,
}
use net_calc.MathFuncs.Bitwise.{logic_funcs_digits, shift_funcs_digits, Digits, word_pow}
use net_calc.MathFuncs.Rotate.{rotate_funcs_digits, rotate_l_func_digits, rotate_r_func_digits}

module _ (sign : ℕ) where
  -- For two words, and_func, or_func and xor_func succeed with words that have a digit 1 exactly
  -- where both operands have one, where an operand has one, and where the operands' digits
  -- differ. For a word and a count above 0 and below the width, shift_l_func succeeds with a
  -- word whose digits below the count are 0 and whose others are the operand's moved up by it,
  -- shift_r_func with one whose digits are the operand's moved down by the count, and
  -- rotate_l_func and rotate_r_func with words whose digits are the operand's moved up and down
  -- round the width.
  pub bit_funcs_digits :
      (x y n old : ℕ)
      → IsWord sign x
      → IsWord sign y
      → 0 < n
      → n < suc sign
      → (Digits sign and_func x y old (λ r i. digit r i ≡ min (digit x i) (digit y i))
          × Digits sign or_func x y old (λ r i. digit r i ≡ max (digit x i) (digit y i))
          × Digits sign xor_func x y old (λ r i. digit r i ≡ (digit x i + digit y i) % 2))
        × (Digits sign
              (shift_l_func sign)
              x
              n
              old
              (λ r i. digit r i ≡ (if ltb i n then 0 else digit x (i - n)))
            × Digits sign (shift_r_func sign) x n old (λ r i. digit r i ≡ digit x (n + i)))
        × (Digits sign
              (rotate_l_func sign)
              x
              n
              old
              (λ r i. digit r ((i + n) % suc sign) ≡ digit x i)
            × Digits sign
                (rotate_r_func sign)
                x
                n
                old
                (λ r i. digit r i ≡ digit x ((i + n) % suc sign)))
  bit_funcs_digits x y n old w v z h = (
    logic_funcs_digits sign x y old w v,
    shift_funcs_digits sign x n old w h,
    rotate_funcs_digits sign x n old w z h,
  )

  -- For a word and a count above 0 and below the width, both rotations succeed and rotate_r_func
  -- gives back what rotate_l_func was given.
  pub rotate_r_func-rotate_l_func :
      (x n old : ℕ)
      → IsWord sign x
      → 0 < n
      → n < suc sign
      → (r : ℕ) × (rotate_l_func sign x n (some old) ≡ returns success (some r))
        × (rotate_r_func sign r n (some old) ≡ returns success (some x))
  rotate_r_func-rotate_l_func x n old w z h =
      let (r, left, r_word, r_digits) = rotate_l_func_digits sign x n old w z h in
      let (t, right, t_word, t_digits) = rotate_r_func_digits sign r n old r_word z h in
      let same : t ≡ x =
        digit_ext (suc sign) t x (word_pow sign t t_word) (word_pow sign x w)
          (λ i b. t_digits i b ∙ r_digits i b) in
      (r, left, rw same at right)
