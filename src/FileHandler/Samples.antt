-- ===== src/FileHandler/Samples.antt =====
-- A file for the tests of the file calculator.
use net_calc.Prelude.{ℕ, ◌+◌, refl, arith, [], ◌∷◌}
use net_calc.NetHandler.Layout.{EquationFits}
use net_calc.NetHandler.Samples.{header_for, sum, seven, outlet, sum_solved}
use net_calc.FileHandler.Jobs.{Task, IsGood}

abbrev pub task : ℕ → Task
task fd = record {
  d_name = b'a' ∷ [];
  in_file = fd;
  out_file = fd + 1;
  header = header_for 1 0;
  equations = sum ∷ sum ∷ [];
  calcs = seven ∷ seven ∷ [];
  out = outlet;
}

pub sum-EquationFits : EquationFits sum
sum-EquationFits =
    (omega arith, omega arith, omega arith, omega arith, omega arith, omega arith, omega arith)

pub task-IsGood : IsGood (task 5)
task-IsGood = record {
  visible = refl;
  descriptors = (omega arith, omega arith);
  accepted = (
    (omega arith, omega arith, omega arith, omega arith, omega arith, omega arith),
    refl,
    omega arith,
    omega arith,
  );
  promised = omega arith;
  solves = (sum-EquationFits, sum_solved, (sum-EquationFits, sum_solved, tt));
  accepting = tt;
}
