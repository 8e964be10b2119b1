-- ===== src/NetHandler/Answers.antt =====
-- What `parse_stream` answers to a file of equations, by how the file goes.
use net_calc.Prelude.{
  ℕ, suc, ◌+◌, ◌^◌, ◌<◌, ◌≡◌, ◌∙◌, ◌⊎◌, inl, inr, refl, ap, arith, false, Option, some, List, [],
  ◌∷◌, ◌++◌,
}
use net_calc.Prelude.{length, append_assoc, ◌==◌}
use net_calc.Words.{Status, success, error, returns}
use net_calc.FileIo.Stream.{Input, Output, piece, piece_left}
use net_calc.FileIo.Safe.{safe_read, goes_on, read_loop, minus_one, ReadOutcome}
use net_calc.FileIo.Read.{safe_read-GivesUp, GivesUp}
use net_calc.FileIo.Write.{AllAccept}
use net_calc.CalcHandle.Defs.{Calc}
use net_calc.CalcHandle.Solve.{evaluate}
use net_calc.NetHandler.Packed.{
  Equation, FileHeader, NetHeader, header_bytes, equation_bytes, net_header_bytes,
}
use net_calc.NetHandler.Messages.{answer_header, solved_header}
use net_calc.NetHandler.Layout.{EquationFits, equation_of-equation_bytes}
use net_calc.NetHandler.Stream.{
  Ending, ended, equations_loop, parse_stream, after_read, after_solve,
}
use net_calc.NetHandler.Loop.{
  SolvedBy, file_bytes, answer_bytes, equations_loop_solved, read_equation,
}
use net_calc.NetHandler.Exchange.{Accepted, reading_opens}

-- The answer in full: two headers and a solution for each equation.
abbrev pub answer : NetHeader → FileHeader → List Equation → List Calc → List ℕ
answer net_header h equations calcs =
    (net_header_bytes (answer_header net_header h.num_equations) ++ header_bytes (solved_header h))
    ++ answer_bytes equations calcs

-- A read that gives up on the rest of a file.
cut_off :
    (cut : List ℕ) (input : Input)
    → length cut < 32
    → (0 < length cut) ⊎ (input ≡ [])
    → GivesUp (safe_read 32 (piece_left cut input))
unfolding safe_read goes_on read_loop
cut_off [] input short (inl some_left) = absurd (omega arith)
cut_off [] input short (inr over) = rw over (_, refl, inl refl)
cut_off (b ∷ cut) input short comes =
    safe_read-GivesUp 32 (b ∷ cut) input (omega arith) short (omega arith)

pub value_short :
    (size value : ℕ)
    → 0 < size
    → size < 2 ^ 63
    → (value ≡ 0) ⊎ (value ≡ minus_one)
    → (value == size) ≡ false
value_short size value p q (inl h) = ground arith
value_short size value p q (inr h) = ground arith

gives_up :
    (continue : Status → Input → Output → Ending) (k : ℕ) (out : Output) (r : ReadOutcome)
    → (r.value ≡ 0) ⊎ (r.value ≡ minus_one)
    → after_read continue k success out (some r) ≡ ended success r.rest out
gives_up continue k out r h = rw (value_short 32 r.value (omega arith) (omega arith) h) refl

module _ (net_header : NetHeader) (h : FileHeader) (equations : List Equation) (calcs : List Calc)
    (out : Output) (accepted : Accepted h) (solves : SolvedBy equations calcs)
    (below : length equations < 2 ^ 31) (accepting : AllAccept out.calls) where
  -- What arrives: the header, the equations, and what follows them.
  abbrev arrives : List ℕ → Input → Input
  arrives rest input = piece (header_bytes h ++ (file_bytes equations ++ rest)) ∷ input

  exchange_prefix :
      (left : ℕ) (rest : List ℕ) (input : Input)
      → h.num_equations ≡ length equations + left
      → (out' : Output) × (parse_stream net_header (arrives rest input) out
          ≡ equations_loop left (length equations) success (piece_left rest input) out')
        × (out'.written ≡ out.written ++ answer net_header h equations calcs)
  exchange_prefix left rest input count =
      let (out₁, opens, wrote₁, still₁) =
        reading_opens net_header h (file_bytes equations ++ rest) input out accepted accepting in
      let (out₂, goes_on, wrote₂, _) =
        equations_loop_solved equations calcs left 0 rest input out₁ solves (omega arith) still₁ in
      (
        out₂,
        opens
            ∙ ap
                (λ n.
                  equations_loop n 0 success (piece_left (file_bytes equations ++ rest) input) out₁)
                count
            ∙ goes_on
            ∙ ap (λ k. equations_loop left k success (piece_left rest input) out₂) (omega arith),
        wrote₂
            ∙ ap (λ w. w ++ answer_bytes equations calcs) wrote₁
            ∙ append_assoc out.written
                (net_header_bytes (answer_header net_header h.num_equations)
                  ++ header_bytes (solved_header h))
                (answer_bytes equations calcs),
      )

  -- If no call of write fails and the first piece that arrives begins with the bytes of an
  -- accepted header and of as many equations as it promises, fewer than 2 ^ 31, each of which
  -- fits its structure and is solved by the record beside it, parse_stream returns SUCCESS,
  -- leaves what follows to be read, and writes exactly the network header of the answer, the
  -- file header marked as solved and the solutions in the order of the equations.
  pub parse_stream_answers :
      (rest : List ℕ) (input : Input)
      → h.num_equations ≡ length equations
      → (out' : Output) × (parse_stream net_header (arrives rest input) out
          ≡ ended success (piece_left rest input) out')
        × (out'.written ≡ out.written ++ answer net_header h equations calcs)
  unfolding equations_loop
  parse_stream_answers rest input count = exchange_prefix 0 rest input (omega arith)

  -- If the header is accepted and the n equations that it promises have 75 + 14 * n < 2 ^ 63, so
  -- that an int64_t can hold the size of the file that answers, no call of write fails, and
  -- after equations that are solved, fewer than the header promises and than 2 ^ 31, an equation
  -- follows in the same piece for which solving returns ERROR, parse_stream returns ERROR and
  -- leaves what follows that equation to be read; it has written the two headers, which promise
  -- all the equations, and the solutions of those before.
  pub parse_stream_fails :
      (left : ℕ) (e : Equation) (p_calc : Option Calc) (rest : List ℕ) (input : Input)
      → h.num_equations ≡ length equations + suc left
      → EquationFits e
      → evaluate 63 e.oper e.num1 e.num2 ≡ returns error p_calc
      → (out' : Output) × (parse_stream net_header (arrives (equation_bytes e ++ rest) input) out
          ≡ ended error (piece_left rest input) out')
        × (out'.written ≡ out.written ++ answer net_header h equations calcs)
  unfolding equations_loop
  parse_stream_fails left e p_calc rest input count e_fits fails =
      let (out', gone, wrote) = exchange_prefix (suc left) (equation_bytes e ++ rest) input count in
      (
        out',
        gone
            ∙ ap (after_read go (length equations) success out') (read_equation e rest input)
            ∙ ap
                (λ q.
                  after_solve go (length equations) q (piece_left rest input) out'
                    (evaluate 63 q.oper q.num1 q.num2))
                (equation_of-equation_bytes e e_fits)
            ∙ ap (after_solve go (length equations) e (piece_left rest input) out') fails,
        wrote,
      )
    where
      go : Status → Input → Output → Ending
      go err i o = equations_loop left (length equations + 1) err i o

  -- If the header is accepted and the n equations that it promises have 75 + 14 * n < 2 ^ 63, so
  -- that an int64_t can hold the size of the file that answers, no call of write fails, and
  -- after equations that are solved, fewer than the header promises and than 2 ^ 31, the data
  -- ends or the same piece ends within the next equation, parse_stream returns SUCCESS all the
  -- same, whatever arrives later; it has written the two headers, which promise all the
  -- equations, and the solutions of those before.
  pub parse_stream_truncated :
      (left : ℕ) (cut : List ℕ) (input : Input)
      → h.num_equations ≡ length equations + suc left
      → length cut < 32
      → (0 < length cut) ⊎ (input ≡ [])
      → (out' : Output) × (rest' : Input) × (parse_stream net_header (arrives cut input) out
          ≡ ended success rest' out')
        × (out'.written ≡ out.written ++ answer net_header h equations calcs)
  unfolding equations_loop
  parse_stream_truncated left cut input count short comes =
      let (out', gone, wrote) = exchange_prefix (suc left) cut input count in
      let (r, read, value) = cut_off cut input short comes in
      (
        out',
        r.rest,
        gone
            ∙ ap (after_read go (length equations) success out') read
            ∙ gives_up go (length equations) out' r value,
        wrote,
      )
    where
      go : Status → Input → Output → Ending
      go err i o = equations_loop left (length equations + 1) err i o
