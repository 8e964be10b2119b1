-- ===== src/FileHandler/Loop.antt =====
-- The loop of `process_equations` on equations that are solved.
use net_calc.Prelude.{
  ℕ, zero, suc, ◌*◌, ◌≤◌, ◌<◌, ◌≡◌, ◌∙◌, refl, sym, ap, arith, Bool, true, some, List, [], ◌∷◌,
  ◌++◌,
}
use net_calc.Prelude.{length, append_assoc, append-nil, length-append, if◌then◌else◌}
use net_calc.Prelude.Int.{ℤ, pos, pos_part, ltb_ℤ}
use net_calc.Words.{Status, success, error, returns}
use net_calc.FileIo.Stream.{Input, Output, piece_left}
use net_calc.FileIo.Safe.{safe_read, goes_on, safe_close, read_loop}
use net_calc.FileIo.Write.{AllAccept, safe_write_all}
use net_calc.FileIo.Total.{weight}
use net_calc.CalcHandle.Defs.{Calc}
use net_calc.CalcHandle.Solve.{evaluate}
use net_calc.NetHandler.Packed.{Equation, equation_bytes, solution_bytes}
use net_calc.NetHandler.Messages.{solved}
use net_calc.NetHandler.Layout.{EquationFits, equation_of-equation_bytes}
use net_calc.NetHandler.Loop.{SolvedBy, file_bytes, answer_bytes, read_equation}
use net_calc.NetHandler.Stream.{Ending, ended}
use net_calc.FileHandler.Process.{
  write_file, write_done, solve_done, read_done, process_loop, process_equations,
}

process_round :
    (e : Equation) (calc : Calc) (fuel : ℕ) (err : Status) (rest : List ℕ) (input : Input)
    (out : Output)
    → EquationFits e
    → evaluate 63 e.oper e.num1 e.num2 ≡ returns success (some calc)
    → AllAccept out.calls
    → (out' : Output) × (process_loop
          (suc fuel)
          err
          (piece_left (equation_bytes e ++ rest) input)
          out
        ≡ process_loop fuel success (piece_left rest input) out')
      × (out'.written ≡ out.written ++ solution_bytes (solved calc e))
      × AllAccept out'.calls
unfolding process_loop write_file
process_round e calc fuel err rest input out e_fits solves accepting =
    let (out', wrote, all_written, still) =
      safe_write_all (solution_bytes (solved calc e)) out accepting in
    (
      out',
      ap (read_done go err out) (read_equation e rest input)
          ∙ ap (λ q. solve_done go q (piece_left rest input) out (evaluate 63 q.oper q.num1 q.num2))
              (equation_of-equation_bytes e e_fits)
          ∙ ap (solve_done go e (piece_left rest input) out) solves
          ∙ ap (write_done go (piece_left rest input)) wrote,
      all_written,
      still,
    )
  where
    go : Status → Input → Output → Ending
    go e i o = process_loop fuel e i o

-- While equations are solved the loop goes on to the end of the data.
process_loop_solved :
    (equations : List Equation) (calcs : List Calc) (fuel : ℕ) (err : Status) (out : Output)
    → length equations < fuel
    → SolvedBy equations calcs
    → AllAccept out.calls
    → (err' : Status) × (out' : Output) × (process_loop fuel err
          (piece_left (file_bytes equations) [])
          out
        ≡ ended err' [] out')
      × (out'.written ≡ out.written ++ answer_bytes equations calcs)
unfolding process_loop safe_read goes_on read_loop
process_loop_solved equations calcs zero err out f solves accepting = absurd (omega arith)
process_loop_solved [] calcs (suc fuel) err out f solves accepting =
    (err, out, refl, sym (append-nil out.written))
process_loop_solved (e ∷ equations) [] (suc fuel) err out f solves accepting = absurd solves
process_loop_solved (e ∷ equations) (calc ∷ calcs) (suc fuel) err out f (e_fits, solves, others)
      accepting =
    let (out₁, first, wrote₁, still₁) =
      process_round e calc fuel err (file_bytes equations) [] out e_fits solves accepting in
    let (err', out₂, later, wrote₂) =
      process_loop_solved equations calcs fuel success out₁ (omega arith) others still₁ in
    (
      err',
      out₂,
      first ∙ later,
      wrote₂
          ∙ ap (λ w. w ++ answer_bytes equations calcs) wrote₁
          ∙ append_assoc out.written (solution_bytes (solved calc e))
              (answer_bytes equations calcs),
    )

length-file_bytes :
    (equations : List Equation) → length (file_bytes equations) ≡ 32 * length equations
length-file_bytes [] = omega arith
length-file_bytes (e ∷ equations) =
    omega
      (arith, length-append (equation_bytes e) (file_bytes equations), length-file_bytes equations)

weight-piece_left : (bytes : List ℕ) → length bytes ≤ weight (piece_left bytes [])
weight-piece_left [] = omega arith
weight-piece_left (b ∷ bytes) = omega arith

-- For a positive number of equations, which may be more or fewer than the file has, if the rest
-- of the file is one piece of equations that are solved by the records beside them and no call
-- of write fails, process_equations writes the solutions of all of them in order, reads to the
-- end, and returns the status of closing the output.
pub process_equations_solves :
    (equations : List Equation) (calcs : List Calc) (out_file_des : ℤ) (closed : Bool)
    (num_equations : ℤ) (out : Output)
    → ltb_ℤ (pos 0) num_equations ≡ true
    → SolvedBy equations calcs
    → AllAccept out.calls
    → (out' : Output) × (process_equations out_file_des closed num_equations
          (piece_left (file_bytes equations) [])
          out
        ≡ ended (if safe_close (pos_part out_file_des) closed then success else error) [] out')
      × (out'.written ≡ out.written ++ answer_bytes equations calcs)
unfolding process_equations
process_equations_solves equations calcs out_file_des closed num_equations out some_left solves
      accepting =
    let input = piece_left (file_bytes equations) [] in
    let (err, out', ends, wrote) =
      process_loop_solved equations calcs (suc (weight (piece_left (file_bytes equations) [])))
        error out
        (omega (arith, length-file_bytes equations, weight-piece_left (file_bytes equations)))
        solves accepting in
    (out', rw (some_left, ends) refl, wrote)
