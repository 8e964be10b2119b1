-- ===== src/NetHandler/Layout.antt =====
-- The packed structures written and read back.
use net_calc.Prelude.{ℕ, zero, suc, ◌/◌, ◌^◌, ◌<◌, ◌≡◌, refl, ap, arith}
use net_calc.Prelude.{length}
use native.Mathlib.Nat.{pow-suc}
use net_calc.NetHandler.Packed.{bytes_of, number_of, FileHeader, header_of, header_bytes}
use net_calc.NetHandler.Packed.{Equation, equation_of, equation_bytes}

pub length-bytes_of : (k n : ℕ) → length (bytes_of k n) ≡ k
length-bytes_of zero n = refl
length-bytes_of (suc k) n = ap suc (length-bytes_of k (n / 256))

pub number_of-bytes_of : (k n : ℕ) → n < 256 ^ k → number_of (bytes_of k n) ≡ n
number_of-bytes_of zero n h = omega arith
number_of-bytes_of (suc k) n h =
    omega (arith, number_of-bytes_of k (n / 256) (omega (arith, pow-suc 256 k)))

-- Each field holds what fits into it.
abbrev pub HeaderFits : FileHeader → Type 0
HeaderFits h =
    (h.magic < 256 ^ 4)
    × (h.file_id < 256 ^ 8)
    × (h.num_equations < 256 ^ 8)
    × (h.is_solved < 256 ^ 1)
    × (h.offset < 256 ^ 4)
    × (h.reserved < 256 ^ 2)

-- For a header whose fields fit their sizes, the packed structure read from the 27 bytes of the
-- header is the header.
pub header_of-header_bytes : (h : FileHeader) → HeaderFits h → header_of (header_bytes h) ≡ h
header_of-header_bytes h (a, b, c, d, e, f) = λ i. record {
  magic = number_of-bytes_of 4 h.magic a i;
  file_id = number_of-bytes_of 8 h.file_id b i;
  num_equations = number_of-bytes_of 8 h.num_equations c i;
  is_solved = number_of-bytes_of 1 h.is_solved d i;
  offset = number_of-bytes_of 4 h.offset e i;
  reserved = number_of-bytes_of 2 h.reserved f i;
}

abbrev pub EquationFits : Equation → Type 0
EquationFits e =
    (e.equation_id < 256 ^ 4)
    × (e.reserved < 256 ^ 1)
    × (e.num1 < 256 ^ 8)
    × (e.oper < 256 ^ 1)
    × (e.num2 < 256 ^ 8)
    × (e.padding1 < 256 ^ 8)
    × (e.padding2 < 256 ^ 2)

-- For an equation whose fields fit their sizes, the packed structure read from its 32 bytes is
-- the equation.
pub equation_of-equation_bytes :
    (e : Equation) → EquationFits e → equation_of (equation_bytes e) ≡ e
equation_of-equation_bytes e (a, b, c, d, f, g, h) = λ i. record {
  equation_id = number_of-bytes_of 4 e.equation_id a i;
  reserved = number_of-bytes_of 1 e.reserved b i;
  num1 = number_of-bytes_of 8 e.num1 c i;
  oper = number_of-bytes_of 1 e.oper d i;
  num2 = number_of-bytes_of 8 e.num2 f i;
  padding1 = number_of-bytes_of 8 e.padding1 g i;
  padding2 = number_of-bytes_of 2 e.padding2 h i;
}

pub length-header_bytes : (h : FileHeader) → length (header_bytes h) ≡ 27
length-header_bytes h = refl

pub length-equation_bytes : (e : Equation) → length (equation_bytes e) ≡ 32
length-equation_bytes e = refl
