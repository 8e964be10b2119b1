-- ===== src/SimpleCalc/Samples.antt =====
-- A reader of decimal numbers, for the tests.
use net_calc.Prelude.{ℕ, ◌+◌, ◌-◌, ◌*◌, ◌&&◌, [], ◌∷◌, leb, ◌==◌, if◌then◌else◌}
use net_calc.Prelude.Int.{ℤ, pos, ◌-ℤ◌}
use net_calc.CalcHandle.Opers.{CString}
use net_calc.SimpleCalc.Convert.{Number}

abbrev pub digits : ℕ → CString → ℕ × CString
digits n [] = (n, [])
digits n (c ∷ s) = if leb b'0' c && leb c b'9' then digits (n * 10 + (c - b'0')) s else (n, c ∷ s)

abbrev pub read_unsigned : CString → ℕ → Number ℕ
read_unsigned s radix = record { value = (digits 0 s).0; errno = 0; rest = (digits 0 s).1 }

abbrev pub minus : ℕ → ℤ
minus n = pos 0 -ℤ pos n

abbrev pub read_signed : CString → ℕ → Number ℤ
read_signed [] radix = record { value = pos 0; errno = 0; rest = [] }
read_signed (c ∷ s) radix =
    if c == b'-'
    then record { value = minus (digits 0 s).0; errno = 0; rest = (digits 0 s).1 }
    else record { value = pos (digits 0 (c ∷ s)).0; errno = 0; rest = (digits 0 (c ∷ s)).1 }
