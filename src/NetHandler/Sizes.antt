-- ===== src/NetHandler/Sizes.antt =====
-- The sizes that the network header of an answer announces.
use net_calc.Prelude.{
  ℕ, zero, suc, ◌+◌, ◌*◌, ◌/◌, ◌%◌, ◌^◌, ◌<◌, ◌≡◌, ◌∙◌, refl, sym, ap, ap₂, arith, List, [], ◌∷◌,
  ◌++◌, reverse, ◌==◌, if◌then◌else◌, Bool, true, false,
}
use net_calc.Prelude.{length, length-append, length-replicate, replicate}
use net_calc.CalcHandle.Defs.{Calc}
use net_calc.NetHandler.Packed.{
  bytes_of, number_of, swap_bytes, Equation, FileHeader, NetHeader, header_bytes, net_header_bytes,
}
use net_calc.NetHandler.Messages.{strncpy, answer_header, solved_header}
use net_calc.NetHandler.Layout.{number_of-bytes_of}
use net_calc.NetHandler.Loop.{SolvedBy, answer_bytes}
use net_calc.NetHandler.Exchange.{Accepted}
use net_calc.NetHandler.Answers.{answer}

abbrev AllBytes : List ℕ → Type 0
AllBytes [] = Unit {0}
AllBytes (b ∷ bs) = (b < 256) × AllBytes bs

bytes_of-number_of : (bs : List ℕ) → AllBytes bs → bytes_of (length bs) (number_of bs) ≡ bs
bytes_of-number_of [] p = refl
bytes_of-number_of (b ∷ bs) (p, q) =
    ap₂ (λ c n. c ∷ bytes_of (length bs) n) low high ∙ ap (λ l. b ∷ l) (bytes_of-number_of bs q)
  where
    low : (b + 256 * number_of bs) % 256 ≡ b
    low = omega (arith, p)

    high : (b + 256 * number_of bs) / 256 ≡ number_of bs
    high = omega (arith, p)

swap_bytes_twice_4 : (n : ℕ) → n < 256 ^ 4 → swap_bytes 4 (swap_bytes 4 n) ≡ n
swap_bytes_twice_4 n p =
    ap (λ l. number_of (reverse l))
      (bytes_of-number_of (reverse (bytes_of 4 n))
        (omega arith, (omega arith, (omega arith, (omega arith, tt)))))
    ∙ number_of-bytes_of 4 n p

swap_bytes_twice_8 : (n : ℕ) → n < 256 ^ 8 → swap_bytes 8 (swap_bytes 8 n) ≡ n
swap_bytes_twice_8 n p =
    ap (λ l. number_of (reverse l))
      (bytes_of-number_of (reverse (bytes_of 8 n)) (
        omega arith,
        (
          omega arith,
          (
            omega arith,
            (omega arith, (omega arith, (omega arith, (omega arith, (omega arith, tt))))),
          ),
        ),
      ))
    ∙ number_of-bytes_of 8 n p

length-strncpy : (n : ℕ) (src : List ℕ) → length (strncpy n src) ≡ n
length-strncpy zero src = refl
length-strncpy (suc n) [] = ap suc (length-strncpy n [])
length-strncpy (suc n) (c ∷ src) = ap suc (by_test (c == 0) (length-strncpy n src))
  where
    by_test :
        (b : Bool)
        → length (strncpy n src) ≡ n
        → length (if b then replicate n 0 else strncpy n src) ≡ n
    by_test true p = length-replicate n 0
    by_test false p = p

length-answer_bytes :
    (equations : List Equation) (calcs : List Calc)
    → SolvedBy equations calcs
    → length (answer_bytes equations calcs) ≡ 14 * length equations
length-answer_bytes [] calcs p = omega arith
length-answer_bytes (e ∷ equations) [] p = absurd p
length-answer_bytes (e ∷ equations) (c ∷ calcs) (_, _, p) =
    omega (arith, length-answer_bytes equations calcs p)

length-parts : (a b c : List ℕ) → length ((a ++ b) ++ c) ≡ length a + length b + length c
length-parts a b c = omega (arith, length-append (a ++ b) c, length-append a b)

-- For an accepted file header that promises as many equations as are solved and a name's length
-- of four bytes, the network header of the answer announces, read in network order, 48 as its
-- own size, the name's length that was received, and as the size of the file the number of bytes
-- of the whole answer: both headers and all solutions.
pub answer_header-answer :
    (net_header : NetHeader) (h : FileHeader) (equations : List Equation) (calcs : List Calc)
    → Accepted h
    → h.num_equations ≡ length equations
    → SolvedBy equations calcs
    → net_header.file_name_len < 256 ^ 4
    → let announced = answer_header net_header h.num_equations in
      (swap_bytes 4 announced.header_size ≡ 48)
      × (announced.file_name_len ≡ net_header.file_name_len)
      × (swap_bytes 8 announced.file_size ≡ length (answer net_header h equations calcs))
answer_header-answer net_header h equations calcs (_, _, _, small) count solves name = (
  refl,
  swap_bytes_twice_4 net_header.file_name_len name,
  swap_bytes_twice_8 (48 + 27 + 14 * h.num_equations) (omega (arith, small)) ∙ answer_size,
)
  where
    net_part : length (net_header_bytes (answer_header net_header h.num_equations)) ≡ 48
    net_part = omega (arith, length-strncpy 32 net_header.filename)

    answer_size : 48 + 27 + 14 * h.num_equations ≡ length (answer net_header h equations calcs)
    answer_size = sym (
        length-parts (net_header_bytes (answer_header net_header h.num_equations))
          (header_bytes (solved_header h)) (answer_bytes equations calcs)
        ∙ ap₂ (λ a b. a + 27 + b) net_part (length-answer_bytes equations calcs solves)
        ∙ ap (λ n. 48 + 27 + 14 * n) (sym count))
