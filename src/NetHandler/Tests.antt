-- ===== src/NetHandler/Tests.antt =====
-- Runs of the exchange on one connection, and the theorems at concrete files.
use net_calc.Prelude.{◌≡◌, refl, arith, inl, some, [], ◌∷◌, ◌++◌, replicate}
use net_calc.Words.{success, error, returns}
use net_calc.FileIo.Stream.{Input, Output, piece}
use net_calc.MathFuncs.Widths.{sign64}
use net_calc.CalcHandle.Defs.{switch_oper}
use net_calc.CalcHandle.Solve.{evaluate, evaluate_lem, blank}
use net_calc.NetHandler.Packed.{Equation, NetHeader, header_bytes, equation_bytes, net_header_bytes}
use net_calc.NetHandler.Messages.{error_header}
use net_calc.NetHandler.Stream.{ended, parse_stream}
use net_calc.NetHandler.Loop.{file_bytes}
use net_calc.NetHandler.Answers.{answer, parse_stream_fails, parse_stream_truncated}
use net_calc.NetHandler.Refusals.{Refuses, parse_stream-Refuses}
use net_calc.NetHandler.Samples.{header_for, sum, seven, outlet, sum_solved}

abbrev net : NetHeader
net = record {
  header_size = 805306368;
  file_name_len = 50331648;
  file_size = 0;
  filename = 97 ∷ 98 ∷ 99 ∷ [];
}

abbrev bad_equation : Equation
bad_equation = record {
  equation_id = 2;
  reserved = 0;
  num1 = 3;
  oper = 0;
  num2 = 4;
  padding1 = 0;
  padding2 = 0;
}

bad_fails : evaluate sign64 0 3 4 ≡ returns error (some blank)
unfolding switch_oper
bad_fails = evaluate_lem sign64 0 3 4

error_bytes :
    net_header_bytes error_header ≡ 0 ∷ 0 ∷ 0 ∷ 48 ∷ replicate 11 0 ++ (48 ∷ replicate 32 0)
error_bytes = refl

parse_stream_fails_example :
    (out : Output) × (parse_stream net
        (piece (
            header_bytes (header_for 3 0)
            ++ (file_bytes (sum ∷ []) ++ (equation_bytes bad_equation ++ equation_bytes sum)))
          ∷ [])
        outlet
      ≡ ended error (piece (equation_bytes sum) ∷ []) out)
    × (out.written ≡ answer net (header_for 3 0) (sum ∷ []) (seven ∷ []))
parse_stream_fails_example =
    parse_stream_fails net (header_for 3 0) (sum ∷ []) (seven ∷ []) outlet
      (
        (omega arith, omega arith, omega arith, omega arith, omega arith, omega arith),
        refl,
        omega arith,
        omega arith,
      )
      (
        (omega arith, omega arith, omega arith, omega arith, omega arith, omega arith, omega arith),
        sum_solved,
        tt,
      )
      (omega arith) tt 1 bad_equation (some blank) (equation_bytes sum) [] refl
      (omega arith, omega arith, omega arith, omega arith, omega arith, omega arith, omega arith)
      bad_fails

parse_stream_truncated_example :
    (out : Output) × (rest : Input) × (parse_stream net
        (piece (header_bytes (header_for 2 0) ++ (file_bytes (sum ∷ []) ++ (2 ∷ 0 ∷ [])))
          ∷ piece (0 ∷ [])
          ∷ [])
        outlet
      ≡ ended success rest out)
    × (out.written ≡ answer net (header_for 2 0) (sum ∷ []) (seven ∷ []))
parse_stream_truncated_example =
    parse_stream_truncated net (header_for 2 0) (sum ∷ []) (seven ∷ []) outlet
      (
        (omega arith, omega arith, omega arith, omega arith, omega arith, omega arith),
        refl,
        omega arith,
        omega arith,
      )
      (
        (omega arith, omega arith, omega arith, omega arith, omega arith, omega arith, omega arith),
        sum_solved,
        tt,
      )
      (omega arith) tt 0 (2 ∷ 0 ∷ []) (piece (0 ∷ []) ∷ []) refl (omega arith) (inl (omega arith))

parse_stream-Refuses_example :
    Refuses net
      (piece (header_bytes (header_for 2 1) ++ equation_bytes sum) ∷ [])
      (piece (equation_bytes sum) ∷ [])
      outlet
parse_stream-Refuses_example =
    parse_stream-Refuses net (header_for 2 1) (equation_bytes sum) [] outlet
      (omega arith, omega arith, omega arith, omega arith, omega arith, omega arith)
      (inl (λ e. absurd (omega (arith, e)))) tt
