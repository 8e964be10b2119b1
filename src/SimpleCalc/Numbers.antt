-- ===== src/SimpleCalc/Numbers.antt =====
-- Which texts become numbers.
use net_calc.Prelude.{
  ℕ, ◌≡◌, ◌≢◌, ◌∙◌, ◌↔◌, refl, ap, arith, true, false, ◌&&◌, ◌||◌, not, [], ◌∷◌, ◌==◌,
  if◌then◌else◌,
}
use net_calc.Prelude.Int.{ℤ, ltb_ℤ, eqb_ℤ}
use net_calc.Words.{Status, success, error, num, of_num, fits, IsWord, int_max, int_min}
use net_calc.MathFuncs.Widths.{sign32}
use net_calc.CalcHandle.Opers.{CString}
use net_calc.SimpleCalc.Convert.{
  Number, base, byte_at, convert_from_string, convert_from_string_unsigned,
}

-- The library function has read the whole text as a number.
abbrev pub Reads : {A : Type 0} → (CString → ℕ → Number A) → CString → A → Type 0
Reads convert text v = convert text base ≡ record { value = v; errno = 0; rest = [] }

in_range :
    (v : ℤ) → fits sign32 v ≡ true → (ltb_ℤ (int_max sign32) v || ltb_ℤ v (int_min sign32)) ≡ false
in_range v h = ground arith

pub convert-Reads :
    (strtol : CString → ℕ → Number ℤ) (strtoul : CString → ℕ → Number ℕ) (text : CString) (v : ℤ)
    (old : ℕ)
    → Reads strtol text v
    → fits sign32 v ≡ true
    → convert_from_string strtol strtoul text old ≡ (success, of_num sign32 v)
unfolding convert_from_string
convert-Reads strtol strtoul text v old e h = rw (e, in_range v h) (ground arith)

-- A text in C: its bytes are not 0.
abbrev pub NoZero : CString → Type 0
NoZero [] = Unit {0}
NoZero (c ∷ s) = (c ≢ 0) × NoZero s

pub convert_unsigned-Reads :
    (strtol : CString → ℕ → Number ℤ) (strtoul : CString → ℕ → Number ℕ) (text : CString)
    (w old : ℕ)
    → Reads strtoul text w
    → IsWord sign32 w
    → convert_from_string_unsigned strtol strtoul text old ≡ (success, w)
unfolding convert_from_string_unsigned
convert_unsigned-Reads strtol strtoul text w old e h = rw e (ground arith)

abbrev judged : ℕ → ℤ → ℕ → ℕ → Status × ℕ
judged errno v c old =
    if not (errno == 0)
    then (error, old)
    else if ltb_ℤ (int_max sign32) v || ltb_ℤ v (int_min sign32)
    then (error, old)
    else if eqb_ℤ (num 7 c) v && not (c == 0)
    then (error, old)
    else if not (c == 0)
    then (error, old)
    else (success, of_num sign32 v)

judged_success :
    (errno : ℕ) (v : ℤ) (c old w : ℕ)
    → judged errno v c old ≡ (success, w)
    → (errno ≡ 0) × (c ≡ 0) × (fits sign32 v ≡ true) × (of_num sign32 v ≡ w)
judged_success errno v c old w e = ground arith

byte_at-zero : (s : CString) → NoZero s → byte_at s ≡ 0 → s ≡ []
byte_at-zero [] h e = refl
byte_at-zero (c ∷ s) (h, _) e = absurd (h e)

-- If the text behind the number that strtol has read has no zero byte, convert_from_string
-- stores a word and returns 0 exactly if strtol has left errno 0, has read the text to its end,
-- and its value fits the signed type of 32 bits and is that of the word.
pub convert_from_string_iff :
    (strtol : CString → ℕ → Number ℤ) (strtoul : CString → ℕ → Number ℕ) (text : CString)
    (old w : ℕ)
    → NoZero (strtol text base).rest
    → (convert_from_string strtol strtoul text old ≡ (success, w))
      ↔ ((v : ℤ) × Reads strtol text v × (fits sign32 v ≡ true) × (of_num sign32 v ≡ w))
unfolding convert_from_string
convert_from_string_iff strtol strtoul text old w h = (
  λ e.
      let n = strtol text base in
      let (zero_errno, at_end, in_bounds, word) =
        judged_success n.errno n.value (byte_at n.rest) old w e in
      (n.value, whole n zero_errno (byte_at-zero n.rest h at_end), in_bounds, word),
  λ (v, reads, in_bounds, word).
      convert-Reads strtol strtoul text v old reads in_bounds ∙ ap (λ x. (success, x)) word,
)
  where
    whole :
        (n : Number ℤ)
        → n.errno ≡ 0
        → n.rest ≡ []
        → n ≡ record { value = n.value; errno = 0; rest = [] }
    whole n p q = rw (← p, ← q) refl
