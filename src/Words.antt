-- ===== src/Words.antt =====
-- Machine words and what a C arithmetic function does.
-- A word of `sign + 1` bits is its bit pattern, a number below `2 * 2 ^ sign`; `sign` is the index
-- of the sign bit, 63 for the unions of math_funcs.c and calc_handle.c and 31 for those of the
-- thirty_two files. The pattern itself is the unsigned member of the union.
use net_calc.Prelude.{ℕ, ◌-◌, ◌*◌, ◌^◌, ◌<◌, Bool, ◌&&◌, Option, none, some}
use net_calc.Prelude.{ltb, leb, if◌then◌else◌}
use net_calc.Prelude.Int.{ℤ, pos, negsuc, pos_part, neg_part}

-- The return values SUCCESS (0) and ERROR (-1).
pub data Status : Type 0 where
  success error : Status

-- What a call comes to: a status with what it left behind, or behaviour that C leaves undefined.
pub data Outcome {ℓ} (A : Type ℓ) : Type ℓ where
  returns : Status → A → Outcome A
  undefined : Outcome A

module _ (sign : ℕ) where
  abbrev pub half : ℕ
  half = 2 ^ sign

  abbrev pub IsWord : ℕ → Type 0
  IsWord x = x < 2 * half

  -- INT64_MAX and INT64_MIN, or INT32_MAX and INT32_MIN
  abbrev pub int_max : ℤ
  int_max = pos (half - 1)

  abbrev pub int_min : ℤ
  int_min = negsuc (half - 1)

  -- The signed member of the union, read and written.
  abbrev pub num : ℕ → ℤ
  num x = if ltb x half then pos x else negsuc (2 * half - x - 1)

  abbrev pub of_num : ℤ → ℕ
  of_num (pos n) = n
  of_num (negsuc n) = 2 * half - 1 - n

  abbrev pub fits : ℤ → Bool
  fits v = ltb (pos_part v) half && leb (neg_part v) half

  -- The value of a signed expression: defined where the type can hold it.
  abbrev pub signed : ℤ → Option ℤ
  signed v = if fits v then some v else none

-- A step that may be undefined, and what follows it.
infixl 5 ◌>>=◌
abbrev pub ◌>>=◌ {ℓ κ} : {A : Type ℓ} {B : Type κ} → Option A → (A → Outcome B) → Outcome B
m >>= k = elim m [ none ↦ undefined | some a ↦ k a ]
