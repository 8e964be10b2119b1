-- ===== src/FileHandler/Process.antt =====
-- `parse_file`, `process_equations` and `write_file` of 4_ThreadCalc/src/thread_handle.c, whose
-- structures are those of the network handler. Allocations succeed.
use net_calc.Prelude.{ℕ, zero, suc, Bool, Option, none, some, if◌then◌else◌, ◌==◌}
use net_calc.Prelude.Int.{ℤ, pos, pos_part, ltb_ℤ}
use net_calc.Words.{Status, success, error, Outcome, returns, undefined}
use net_calc.FileIo.Stream.{Input, Output}
use net_calc.FileIo.Safe.{ReadOutcome, safe_read, safe_write, safe_close, minus_one}
use net_calc.FileIo.Total.{weight}
use net_calc.CalcHandle.Defs.{Calc}
use net_calc.CalcHandle.Solve.{evaluate}
use net_calc.NetHandler.Packed.{Equation, equation_of, solution_bytes}
use net_calc.NetHandler.Messages.{equation_size, solved}
use net_calc.NetHandler.Stream.{Ending, ended, ends_undefined, out_of_fuel}

-- The value of `safe_write` and the descriptor after it; -1 as a size_t for a NULL pointer.
unfoldable pub write_file : Option Calc → Equation → Output → Option (ℕ × Output)
write_file none equation out = some (minus_one, out)
write_file (some calc) equation out = safe_write (solution_bytes (solved calc equation)) out

-- What follows each call in the loop of `process_equations`, the last first; `continue` is the
-- next round.
abbrev pub write_done : (Status → Input → Output → Ending) → Input → Option (ℕ × Output) → Ending
write_done continue rest none = out_of_fuel
write_done continue rest (some (num_bytes, out)) =
    if num_bytes == 0 then ended success rest out else continue success rest out

abbrev pub solve_done :
    (Status → Input → Output → Ending) → Equation → Input → Output → Outcome (Option Calc) → Ending
solve_done continue equation rest out undefined = ends_undefined
solve_done continue equation rest out (returns error p_calc) = ended error rest out
solve_done continue equation rest out (returns success p_calc) =
    write_done continue rest (write_file p_calc equation out)

abbrev pub read_done :
    (Status → Input → Output → Ending) → Status → Output → Option ReadOutcome → Ending
read_done continue err out none = out_of_fuel
read_done continue err out (some r) =
    if r.value == equation_size
    then (let equation = equation_of r.buffer in
        solve_done continue equation r.rest out
          (evaluate 63 equation.oper equation.num1 equation.num2))
    else ended err r.rest out

-- `equations_read` is never counted up, so that the loop's test stays true.
unfoldable pub process_loop : ℕ → Status → Input → Output → Ending
process_loop zero err input out = out_of_fuel
process_loop (suc fuel) err input out =
    read_done (λ e i o. process_loop fuel e i o) err out (safe_read equation_size input)

-- Behind END the status is that of `safe_close`.
abbrev pub close_output : Bool → Ending → Ending
close_output closed (ended err input out) = ended (if closed then success else error) input out
close_output closed ends_undefined = ends_undefined
close_output closed out_of_fuel = out_of_fuel

-- `closed` is what `close` of the output returns. A round that goes on takes at least a byte.
unfoldable pub process_equations : ℤ → Bool → ℤ → Input → Output → Ending
process_equations out_file_des closed num_equations input out =
    close_output (safe_close (pos_part out_file_des) closed) (
      if ltb_ℤ (pos 0) num_equations
      then process_loop (suc (weight input)) error input out
      else ended error input out)

-- The integers have 32 bits.
pub record ParseArgs : Type 0 where
  pub in_file_stream : ℤ
  pub out_file_stream : ℤ
  pub num_equations : ℤ

-- Ends with the last value of `err`; the function returns NULL.
unfoldable pub parse_file : Option ParseArgs → Bool → Input → Output → Ending
parse_file none closed input out = ended error input out
parse_file (some args) closed input out =
    if ltb_ℤ args.in_file_stream (pos 2)
    then ended error input out
    else if ltb_ℤ args.out_file_stream (pos 2)
    then ended error input out
    else process_equations args.out_file_stream closed args.num_equations input out
