-- ===== src/Prelude/Bits.antt =====
-- `&`, `|`, `^` and the shifts digit by digit, at every width.
use Prim.Native.Nat.{ℕ, zero, suc, ◌+◌, ◌*◌, ◌/◌, ◌%◌, ◌^◌, ◌≤◌, ◌<◌, min, max}
use Prim.Native.Nat.{bit_and, bit_or, bit_xor, digits, differ}
use Prim.Native.Nat.{bit_and-bitwise, bit_or-bitwise, bit_xor-bitwise}
use mathlib.Core.Path.{◌≡◌, refl, ap, ap₂, ◌∙◌, sym}
use native.Mathlib.Nat.{pow-suc, div-div-eq-div-mul, mod_def, mul_assoc}
use native.Mathlib.Omega.{arith}

pub pow-suc' : (n : ℕ) → 2 ^ suc n ≡ 2 * 2 ^ n
pow-suc' n = omega (arith, pow-suc 2 n)

-- Digit `i` of a number in base two, the lowest first.
abbrev pub digit : ℕ → ℕ → ℕ
digit x zero = x % 2
digit x (suc i) = digit (x / 2) i

pub digit-lt : (x i : ℕ) → digit x i < 2
digit-lt x zero = omega arith
digit-lt x (suc i) = digit-lt (x / 2) i

pub zero-digit : (i : ℕ) → digit 0 i ≡ 0
zero-digit zero = refl
zero-digit (suc i) = zero-digit i

module _ (z : ℕ → ℕ) (f : ℕ → ℕ → ℕ) where
  module _ (at_end : (b i : ℕ) → digit (z b) i ≡ f 0 (digit b i))
      (closed : (a b : ℕ) → a < 2 → b < 2 → f a b < 2) where
    -- A digit of the result is `f` of the digits of the operands.
    digit-digits : (n a b i : ℕ) → a ≤ n → digit (digits z f n a b) i ≡ f (digit a i) (digit b i)
    digit-digits zero zero b i h = at_end b i ∙ ap (λ d. f d (digit b i)) (sym (zero-digit i))
    digit-digits zero (suc a) b i h = absurd (omega arith)
    digit-digits (suc n) zero b i h = at_end b i ∙ ap (λ d. f d (digit b i)) (sym (zero-digit i))
    digit-digits (suc n) (suc a) b zero h =
        omega (arith, closed (suc a % 2) (b % 2) (omega arith) (omega arith))
    digit-digits (suc n) (suc a) b (suc i) h =
        ap (λ t. digit t i) halves ∙ digit-digits n (suc a / 2) (b / 2) i (omega arith)
      where
        halves :
            (digits z f n (suc a / 2) (b / 2) * 2 + f (suc a % 2) (b % 2)) / 2
            ≡ digits z f n (suc a / 2) (b / 2)
        halves = omega (arith, closed (suc a % 2) (b % 2) (omega arith) (omega arith))

  module _ (shrinks : (b : ℕ) → z b ≤ b) (closed : (a b : ℕ) → a < 2 → b < 2 → f a b < 2) where
    -- The result has no more digits than the operands.
    digits-lt : (n k a b : ℕ) → a ≤ n → a < 2 ^ k → b < 2 ^ k → digits z f n a b < 2 ^ k
    digits-lt zero k a b h p q = omega (arith, shrinks b)
    digits-lt (suc n) k zero b h p q = omega (arith, shrinks b)
    digits-lt (suc n) zero (suc a) b h p q = absurd (omega arith)
    digits-lt (suc n) (suc k) (suc a) b h p q = omega (
      arith,
      pow-suc' k,
      closed (suc a % 2) (b % 2) (omega arith) (omega arith),
      digits-lt n k (suc a / 2) (b / 2) (omega arith) (omega (arith, pow-suc' k))
          (omega (arith, pow-suc' k)),
    )

pub digit-bit_and : (a b i : ℕ) → digit (bit_and a b) i ≡ min (digit a i) (digit b i)
digit-bit_and a b i =
    ap (λ t. digit t i) (bit_and-bitwise a b)
    ∙ digit-digits (λ b'. zero) min (λ b' j. rw zero-digit (omega arith)) (λ c d p q. omega arith) a
        a b i (omega arith)

pub digit-bit_or : (a b i : ℕ) → digit (bit_or a b) i ≡ max (digit a i) (digit b i)
digit-bit_or a b i =
    ap (λ t. digit t i) (bit_or-bitwise a b)
    ∙ digit-digits (λ b'. b') max (λ b' j. omega arith) (λ c d p q. omega arith) a a b i
        (omega arith)

differ-lt : (c d : ℕ) → c < 2 → d < 2 → differ c d < 2
differ-lt zero d p q = q
differ-lt (suc c) zero p q = p
differ-lt (suc zero) (suc d) p q = omega arith
differ-lt (suc (suc c)) (suc d) p q = absurd (omega arith)

differ_sum : (c d : ℕ) → c < 2 → d < 2 → differ c d ≡ (c + d) % 2
differ_sum zero d p q = omega arith
differ_sum (suc c) zero p q = omega arith
differ_sum (suc zero) (suc zero) p q = refl
differ_sum (suc zero) (suc (suc d)) p q = absurd (omega arith)
differ_sum (suc (suc c)) (suc d) p q = absurd (omega arith)

pub digit-bit_xor : (a b i : ℕ) → digit (bit_xor a b) i ≡ (digit a i + digit b i) % 2
digit-bit_xor a b i =
    ap (λ t. digit t i) (bit_xor-bitwise a b)
    ∙ digit-digits (λ b'. b') differ (λ b' j. refl) differ-lt a a b i (omega arith)
    ∙ differ_sum (digit a i) (digit b i) (digit-lt a i) (digit-lt b i)

mul-pow-suc : (n x : ℕ) → x * 2 ^ suc n ≡ 2 * (x * 2 ^ n)
mul-pow-suc n x = omega (arith, ap (λ (t : ℕ). x * t) (pow-suc 2 n))

-- A shift to the left fills the low digits with zeros and moves the others up.
pub digit_mul_low : (n x i : ℕ) → i < n → digit (x * 2 ^ n) i ≡ 0
digit_mul_low zero x i h = absurd (omega arith)
digit_mul_low (suc n) x zero h = omega (arith, mul-pow-suc n x)
digit_mul_low (suc n) x (suc i) h = ap (λ t. digit t i) halves ∙ digit_mul_low n x i (omega arith)
  where
    halves : x * 2 ^ suc n / 2 ≡ x * 2 ^ n
    halves = omega (arith, mul-pow-suc n x)

pub digit_mul_high : (n x i : ℕ) → digit (x * 2 ^ n) (n + i) ≡ digit x i
digit_mul_high zero x i = ap₂ digit same shifted
  where
    same : x * 2 ^ 0 ≡ x
    same = omega arith

    shifted : 0 + i ≡ i
    shifted = omega arith
digit_mul_high (suc n) x i =
    ap (digit (x * 2 ^ suc n)) shifted ∙ ap (λ t. digit t (n + i)) halves ∙ digit_mul_high n x i
  where
    shifted : suc n + i ≡ suc (n + i)
    shifted = omega arith

    halves : x * 2 ^ suc n / 2 ≡ x * 2 ^ n
    halves = omega (arith, mul-pow-suc n x)

-- The remainder by `m * 2` halved is the remainder of the half.
mod-mul-div : (x m : ℕ) → x % (2 * m) / 2 ≡ x / 2 % m
mod-mul-div x m = omega (
  arith,
  div-div-eq-div-mul x 2 m,
  mod_def x (2 * m),
  mod_def (x / 2) m,
  mul_assoc 2 m (x / (2 * m)),
  ap (λ (t : ℕ). m * t) (div-div-eq-div-mul x 2 m),
)

-- A remainder by a power of two keeps the digits below.
pub digit_mod_low : (w x i : ℕ) → i < w → digit (x % 2 ^ w) i ≡ digit x i
digit_mod_low zero x i h = absurd (omega arith)
digit_mod_low (suc w) x zero h =
    rw (pow-suc' w) (omega (arith, mod_def x (2 * 2 ^ w), mul_assoc 2 (2 ^ w) (x / (2 * 2 ^ w))))
digit_mod_low (suc w) x (suc i) h =
    ap (λ t. digit t i) (rw (pow-suc' w) (mod-mul-div x (2 ^ w)))
    ∙ digit_mod_low w (x / 2) i (omega arith)

pub digit-div-pow : (m x i : ℕ) → digit (x / 2 ^ m) i ≡ digit x (m + i)
digit-div-pow zero x i = ap₂ digit same shifted
  where
    same : x / 2 ^ 0 ≡ x
    same = omega arith

    shifted : i ≡ 0 + i
    shifted = omega arith
digit-div-pow (suc m) x i =
    ap (λ t. digit t i) halves ∙ digit-div-pow m (x / 2) i ∙ ap (digit x) shifted
  where
    halves : x / 2 ^ suc m ≡ x / 2 / 2 ^ m
    halves = rw (pow-suc' m) (sym (div-div-eq-div-mul x 2 (2 ^ m)))

    shifted : suc (m + i) ≡ suc m + i
    shifted = omega arith

-- Numbers of `k` digits are equal if their digits are.
pub digit_ext :
    (k x y : ℕ) → x < 2 ^ k → y < 2 ^ k → ((i : ℕ) → i < k → digit x i ≡ digit y i) → x ≡ y
digit_ext zero x y p q h = omega arith
digit_ext (suc k) x y p q h = omega (
  arith,
  h 0 (omega arith),
  digit_ext k (x / 2) (y / 2) (omega (arith, pow-suc 2 k)) (omega (arith, pow-suc 2 k))
      (λ i b. h (suc i) (omega arith)),
)

-- A number of `k` digits has no digit above.
pub digit_above : (k x i : ℕ) → x < 2 ^ k → k ≤ i → digit x i ≡ 0
digit_above zero x i p h = ap (λ t. digit t i) (omega arith) ∙ zero-digit i
digit_above (suc k) x zero p h = absurd (omega arith)
digit_above (suc k) x (suc i) p h =
    digit_above k (x / 2) i (omega (arith, pow-suc 2 k)) (omega arith)

pub bit_and-lt : (k a b : ℕ) → a < 2 ^ k → b < 2 ^ k → bit_and a b < 2 ^ k
bit_and-lt k a b p q = rw (bit_and-bitwise a b) (
    digits-lt (λ b'. zero) min (λ b'. omega arith) (λ c d u v. omega arith) a k a b (omega arith) p
      q)

pub bit_or-lt : (k a b : ℕ) → a < 2 ^ k → b < 2 ^ k → bit_or a b < 2 ^ k
bit_or-lt k a b p q = rw (bit_or-bitwise a b) (
    digits-lt (λ b'. b') max (λ b'. omega arith) (λ c d u v. omega arith) a k a b (omega arith) p q)

pub bit_xor-lt : (k a b : ℕ) → a < 2 ^ k → b < 2 ^ k → bit_xor a b < 2 ^ k
bit_xor-lt k a b p q =
    rw (bit_xor-bitwise a b)
      (digits-lt (λ b'. b') differ (λ b'. omega arith) differ-lt a k a b (omega arith) p q)

-- A width is below the number of words of that width.
pub width-lt : (k : ℕ) → suc k < 2 * 2 ^ k
width-lt zero = omega arith
width-lt (suc k) = omega (arith, width-lt k, pow-suc' k)
