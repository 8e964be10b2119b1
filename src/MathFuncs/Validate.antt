-- ===== src/MathFuncs/Validate.antt =====
-- The static guards of 0_Common/src/math_funcs.c, on the signed values of the operands.
-- A signed expression in a guard is checked too: `none` is a guard that C leaves undefined.
use net_calc.Prelude.{ℕ, Bool, true, false, Option, none, some, if◌then◌else◌}
use net_calc.Prelude.Int.{ℤ, pos, negsuc, ◌+ℤ◌, ◌-ℤ◌, quot_ℤ, ltb_ℤ, eqb_ℤ}
use net_calc.Words.{Status, success, error, int_max, int_min, signed}

infixl 5 ◌>>=◌
abbrev ◌>>=◌ {ℓ κ} : {A : Type ℓ} {B : Type κ} → Option A → (A → Option B) → Option B
m >>= k = elim m [ none ↦ none | some a ↦ k a ]

-- `a && b` and `a || b`, where `b` runs only if it is needed.
abbrev and_then : Bool → Option Bool → Option Bool
and_then a b = elim a [ true ↦ b | false ↦ some false ]

abbrev or_else : Bool → Option Bool → Option Bool
or_else a b = elim a [ true ↦ some true | false ↦ b ]

-- 0 < v and v < 0
abbrev positive : ℤ → Bool
positive v = ltb_ℤ (pos 0) v

abbrev negative : ℤ → Bool
negative v = ltb_ℤ v (pos 0)

module _ (sign : ℕ) where
  -- `a / b` on the signed type
  abbrev pub divide : ℤ → ℤ → Option ℤ
  divide a b = if eqb_ℤ b (pos 0) then none else signed sign (quot_ℤ a b)

  unfoldable pub validate_add : ℤ → ℤ → Option Status
  validate_add num1 num2 = do
    overflow ←
        and_then (positive num1)
          (do room ← signed sign (int_max sign -ℤ num1); some (ltb_ℤ room num2))
    if overflow then some error else do
      underflow ←
          and_then (negative num1)
            (do room ← signed sign (int_min sign -ℤ num1); some (ltb_ℤ num2 room))
      some (if underflow then error else success)

  unfoldable pub validate_sub : ℤ → ℤ → Option Status
  validate_sub num1 num2 = do
    overflow ←
        and_then (positive num1)
          (do bound ← signed sign (int_min sign +ℤ num1); some (ltb_ℤ num2 bound))
    if overflow then some error else do
      underflow ←
          and_then (negative num1)
            (do bound ← signed sign (int_max sign +ℤ num1); some (ltb_ℤ bound num2))
      some (if underflow then error else success)

  unfoldable pub validate_multi : ℤ → ℤ → Option Status
  validate_multi num1 num2 = do
    both_positive ←
        and_then (positive num1) (
          and_then (positive num2) (do bound ← divide (int_max sign) num2; some (ltb_ℤ bound num1)))
    overflow ← or_else both_positive (
        and_then (negative num1) (
          and_then (negative num2)
            (do bound ← divide (int_max sign) num2; some (ltb_ℤ num1 bound))))
    if overflow then some error else do
      first_negative ← and_then (negative num1) (
          and_then (positive num2) (do bound ← divide (int_min sign) num2; some (ltb_ℤ num1 bound)))
      underflow ← or_else first_negative (
          and_then (positive num1) (
            and_then (negative num2)
              (do bound ← divide (int_min sign) num1; some (ltb_ℤ num2 bound))))
      some (if underflow then error else success)

  unfoldable pub validate_divide : ℤ → ℤ → Status
  validate_divide num1 num2 =
      if eqb_ℤ num2 (pos 0)
      then error
      else if eqb_ℤ num1 (int_min sign)
      then (if eqb_ℤ num2 (negsuc 0) then error else success)
      else success
