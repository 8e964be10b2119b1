-- ===== src/NetHandler/Loop.antt =====
-- The loop of `parse_stream`: equations that arrive whole and are solved.
use net_calc.Prelude.{
  ℕ, suc, ◌+◌, ◌^◌, ◌-◌, ◌<◌, ◌≡◌, ◌∙◌, sym, ap, ap₂, arith, false, some, List, [], ◌∷◌, ◌++◌,
}
use net_calc.Prelude.{length, append_assoc, append-nil, ◌==◌, if◌then◌else◌}
use net_calc.Words.{Status, success, returns}
use net_calc.FileIo.Stream.{Input, Output, piece_left}
use net_calc.FileIo.Safe.{safe_read}
use net_calc.FileIo.Read.{safe_read_whole}
use net_calc.FileIo.Write.{AllAccept, safe_write_all}
use net_calc.CalcHandle.Defs.{Calc}
use net_calc.CalcHandle.Solve.{evaluate}
use net_calc.NetHandler.Packed.{Equation, equation_bytes, solution_bytes}
use net_calc.NetHandler.Messages.{solved, write_stream}
use net_calc.NetHandler.Layout.{EquationFits, equation_of-equation_bytes}
use net_calc.NetHandler.Stream.{
  Ending, ends_undefined, equations_loop, after_read, after_solve, after_write,
}

-- Each equation fits its structure and is solved by the record beside it.
abbrev pub SolvedBy : List Equation → List Calc → Type 0
SolvedBy [] [] = Unit {0}
SolvedBy [] (c ∷ calcs) = ⊥
SolvedBy (e ∷ equations) [] = ⊥
SolvedBy (e ∷ equations) (c ∷ calcs) =
    EquationFits e
    × (evaluate 63 e.oper e.num1 e.num2 ≡ returns success (some c))
    × SolvedBy equations calcs

abbrev pub file_bytes : List Equation → List ℕ
file_bytes [] = []
file_bytes (e ∷ equations) = equation_bytes e ++ file_bytes equations

abbrev pub answer_bytes : List Equation → List Calc → List ℕ
answer_bytes [] calcs = []
answer_bytes (e ∷ equations) [] = []
answer_bytes (e ∷ equations) (c ∷ calcs) =
    solution_bytes (solved c e) ++ answer_bytes equations calcs

pub read_equation :
    (e : Equation) (rest : List ℕ) (input : Input)
    → safe_read 32 (piece_left (equation_bytes e ++ rest) input)
      ≡ some (record { value = 32; buffer = equation_bytes e; rest = piece_left rest input })
read_equation e rest input =
    safe_read_whole (equation_bytes e) rest input (omega arith) (omega arith)

not_at_limit : (k : ℕ) → k < 2 ^ 31 - 1 → (k == 2 ^ 31 - 1) ≡ false
not_at_limit k below = ground arith

-- One round that succeeds.
equation_round :
    (e : Equation) (calc : Calc) (left k : ℕ) (rest : List ℕ) (input : Input) (out : Output)
    → EquationFits e
    → evaluate 63 e.oper e.num1 e.num2 ≡ returns success (some calc)
    → k < 2 ^ 31 - 1
    → AllAccept out.calls
    → (out' : Output) × (equations_loop
          (suc left)
          k
          success
          (piece_left (equation_bytes e ++ rest) input)
          out
        ≡ equations_loop left (k + 1) success (piece_left rest input) out')
      × (out'.written ≡ out.written ++ solution_bytes (solved calc e))
      × AllAccept out'.calls
unfolding equations_loop write_stream
equation_round e calc left k rest input out e_fits solves below accepting =
    let (out', wrote, all_written, still) =
      safe_write_all (solution_bytes (solved calc e)) out accepting in
    (
      out',
      ap (after_read go k success out) (read_equation e rest input)
          ∙ ap
              (λ q.
                after_solve go k q (piece_left rest input) out (evaluate 63 q.oper q.num1 q.num2))
              (equation_of-equation_bytes e e_fits)
          ∙ ap (after_solve go k e (piece_left rest input) out) solves
          ∙ ap
              (λ b.
                if b
                then ends_undefined
                else after_write go k (piece_left rest input) (write_stream calc e out))
              (not_at_limit k below)
          ∙ ap (after_write go k (piece_left rest input)) wrote,
      all_written,
      still,
    )
  where
    go : Status → Input → Output → Ending
    go err i o = equations_loop left (k + 1) err i o

zero_add : (n : ℕ) → 0 + n ≡ n
zero_add n = omega arith

add_zero : (n : ℕ) → n ≡ n + 0
add_zero n = omega arith

suc_add : (m n : ℕ) → suc m + n ≡ suc (m + n)
suc_add m n = omega arith

add_suc : (m n : ℕ) → m + 1 + n ≡ m + suc n
add_suc m n = omega arith

-- While the equations that arrive are solved, the loop answers each with its solution and goes on
-- with what follows them.
pub equations_loop_solved :
    (equations : List Equation) (calcs : List Calc) (left k : ℕ) (rest : List ℕ) (input : Input)
    (out : Output)
    → SolvedBy equations calcs
    → k + length equations < 2 ^ 31
    → AllAccept out.calls
    → (out' : Output) × (equations_loop
          (length equations + left)
          k
          success
          (piece_left (file_bytes equations ++ rest) input)
          out
        ≡ equations_loop left (k + length equations) success (piece_left rest input) out')
      × (out'.written ≡ out.written ++ answer_bytes equations calcs)
      × AllAccept out'.calls
equations_loop_solved [] calcs left k rest input out solves below accepting = (
  out,
  ap₂ (λ n j. equations_loop n j success (piece_left rest input) out) (zero_add left) (add_zero k),
  sym (append-nil out.written),
  accepting,
)
equations_loop_solved (e ∷ equations) [] left k rest input out solves below accepting =
    absurd solves
equations_loop_solved (e ∷ equations) (calc ∷ calcs) left k rest input out (e_fits, solves, others)
      below accepting =
    let (out₁, first, wrote₁, still₁) =
      equation_round e calc (length equations + left) k (file_bytes equations ++ rest) input out
        e_fits solves (omega arith) accepting in
    let (out₂, later, wrote₂, still₂) =
      equations_loop_solved equations calcs left (k + 1) rest input out₁ others (omega arith)
        still₁ in
    (
      out₂,
      ap₂ (λ n bytes. equations_loop n k success (piece_left bytes input) out)
            (suc_add (length equations) left)
            (append_assoc (equation_bytes e) (file_bytes equations) rest)
          ∙ first
          ∙ later
          ∙ ap (λ j. equations_loop left j success (piece_left rest input) out₂)
              (add_suc k (length equations)),
      wrote₂
          ∙ ap (λ w. w ++ answer_bytes equations calcs) wrote₁
          ∙ append_assoc out.written (solution_bytes (solved calc e))
              (answer_bytes equations calcs),
      still₂,
    )
