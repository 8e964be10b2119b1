-- ===== src/NetHandler/Exchange.antt =====
-- The exchange of `parse_stream`: what is answered to a file of equations.
use net_calc.Prelude.{ℕ, ◌+◌, ◌*◌, ◌^◌, ◌<◌, ◌≡◌, ◌∙◌, ap, arith, true, none, some, List, ◌∷◌, ◌++◌}
use net_calc.Prelude.{append_assoc, ◌==◌, if◌then◌else◌}
use net_calc.Prelude.Int.{pos, pos_part, ltb_ℤ}
use net_calc.Words.{success, error, num, fits}
use net_calc.FileIo.Stream.{Input, Output, piece, piece_left}
use net_calc.FileIo.Read.{safe_read_whole}
use net_calc.FileIo.Write.{AllAccept, safe_write_all}
use net_calc.NetHandler.Packed.{FileHeader, NetHeader, header_bytes, net_header_bytes}
use net_calc.NetHandler.Messages.{
  check_header, HeaderCheck, judge_header, write_net_header, write_file_header, answer_header,
  solved_header, ignore_value,
}
use net_calc.NetHandler.Layout.{HeaderFits, header_of-header_bytes}
use net_calc.NetHandler.Stream.{
  Ending, ends_undefined, equations_loop, parse_stream, after_check, after_net_header,
  after_file_header,
}

-- The number of equations that a header promises, as an int64_t.
abbrev pub promised : FileHeader → ℕ
promised h = pos_part (num 63 h.num_equations)

-- A header that is read whole and accepted.
abbrev pub Accepted : FileHeader → Type 0
Accepted h =
    HeaderFits h × (h.is_solved ≡ 0) × (0 < h.num_equations) × (75 + 14 * h.num_equations < 2 ^ 63)

unfoldable pub judged : FileHeader → Input → HeaderCheck
judged h rest =
    if h.is_solved == 0
    then (if ltb_ℤ (pos 0) (num 63 h.num_equations) then (success, h, rest) else (error, h, rest))
    else (error, h, rest)

pub check_lem :
    (h : FileHeader) (rest : List ℕ) (input : Input)
    → HeaderFits h
    → check_header (piece (header_bytes h ++ rest) ∷ input)
      ≡ some (judged h (piece_left rest input))
unfolding check_header judged
check_lem h rest input h_fits =
    ap (λ o. elim o [ none ↦ none | some r ↦ some (judge_header r) ])
      (safe_read_whole (header_bytes h) rest input (omega arith) (omega arith))
    ∙ ap (λ q. some (judged q (piece_left rest input))) (header_of-header_bytes h h_fits)

is_zero : (n : ℕ) → n ≡ 0 → (n == 0) ≡ true
is_zero n h = ground arith

promised_lem : (n : ℕ) → 75 + 14 * n < 2 ^ 63 → pos_part (num 63 n) ≡ n
promised_lem n small = ground arith

is_promise : (n : ℕ) → 0 < n → 75 + 14 * n < 2 ^ 63 → ltb_ℤ (pos 0) (num 63 n) ≡ true
is_promise n some_left small = ground arith

size_fits : (n : ℕ) → 75 + 14 * n < 2 ^ 63 → fits 63 (pos (75 + 14 * n)) ≡ true
size_fits n small = ground arith

pub judged-Accepted :
    (h : FileHeader) (rest : Input) → Accepted h → judged h rest ≡ (success, h, rest)
unfolding judged
judged-Accepted h rest (h_fits, unsolved, some_left, small) =
    ap
      (λ b.
        if b
        then (if ltb_ℤ (pos 0) (num 63 h.num_equations)
            then (success, h, rest)
            else (error, h, rest))
        else (error, h, rest))
      (is_zero h.is_solved unsolved)
    ∙ ap (λ b. if b then (success, h, rest) else (error, h, rest))
        (is_promise h.num_equations some_left small)

-- To an accepted header the two headers of the answer are written, and the loop begins.
pub reading_opens :
    (net_header : NetHeader) (h : FileHeader) (rest : List ℕ) (input : Input) (out : Output)
    → Accepted h
    → AllAccept out.calls
    → (out' : Output) × (parse_stream net_header (piece (header_bytes h ++ rest) ∷ input) out
        ≡ equations_loop h.num_equations 0 success (piece_left rest input) out')
      × (out'.written
          ≡ out.written
            ++ (net_header_bytes (answer_header net_header h.num_equations)
                ++ header_bytes (solved_header h)))
      × AllAccept out'.calls
unfolding parse_stream write_net_header write_file_header
reading_opens net_header h rest input out accepted accepting =
    let (_, _, _, small) = accepted in
    let n = h.num_equations in
    let (out₁, first, wrote₁, still₁) =
      safe_write_all (net_header_bytes (answer_header net_header n)) out accepting in
    let (out₂, second, wrote₂, still₂) =
      safe_write_all (header_bytes (solved_header h)) out₁ still₁ in
    (
      out₂,
      ap (after_check net_header out) (check_lem h rest input accepted.0)
          ∙ ap (λ c. after_check net_header out (some c))
              (judged-Accepted h (piece_left rest input) accepted)
          ∙ ap (begin (piece_left rest input)) (promised_lem n small)
          ∙ ap
              (λ b.
                if b
                then after_net_header h n (piece_left rest input)
                    (write_net_header net_header n out)
                else ends_undefined)
              (size_fits n small)
          ∙ ap (λ o. after_net_header h n (piece_left rest input) (ignore_value o)) first
          ∙ ap (λ o. after_file_header n (piece_left rest input) (ignore_value o)) second,
      wrote₂
          ∙ ap (λ w. w ++ header_bytes (solved_header h)) wrote₁
          ∙ append_assoc out.written (net_header_bytes (answer_header net_header n))
              (header_bytes (solved_header h)),
      still₂,
    )
  where
    begin : Input → ℕ → Ending
    begin i n =
        if fits 63 (pos (48 + 27 + 14 * n))
        then after_net_header h n i (write_net_header net_header n out)
        else ends_undefined
