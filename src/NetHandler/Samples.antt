-- ===== src/NetHandler/Samples.antt =====
-- Data for the tests of the files and of the connections.
use net_calc.Prelude.{ℕ, ◌≡◌, some, [], ◌∷◌}
use net_calc.Prelude.Int.{◌+ℤ◌, ◌-ℤ◌}
use net_calc.Words.{success, returns}
use net_calc.FileIo.Stream.{Output, accept}
use net_calc.MathFuncs.Funcs.{add_func}
use net_calc.MathFuncs.Validate.{validate_add}
use net_calc.MathFuncs.Widths.{sign64}
use net_calc.CalcHandle.Defs.{Calc, switch_oper}
use net_calc.CalcHandle.Solve.{evaluate, evaluate_lem, filled}
use net_calc.NetHandler.Packed.{Equation, FileHeader}

abbrev pub header_for : ℕ → ℕ → FileHeader
header_for n already = record {
  magic = 5;
  file_id = 1;
  num_equations = n;
  is_solved = already;
  offset = 27;
  reserved = 0;
}

abbrev pub sum : Equation
sum = record {
  equation_id = 1;
  reserved = 0;
  num1 = 3;
  oper = 1;
  num2 = 4;
  padding1 = 0;
  padding2 = 0;
}

abbrev pub seven : Calc
seven = record (filled 1 3 4 (add_func sign64)) { result = 7 }

abbrev pub outlet : Output
outlet = record { written = []; calls = accept 20 ∷ accept 3 ∷ [] }

pub sum_solved : evaluate sign64 1 3 4 ≡ returns success (some seven)
unfolding switch_oper add_func validate_add ◌+ℤ◌ ◌-ℤ◌
sum_solved = evaluate_lem sign64 1 3 4
