-- ===== src/NetHandler/Stream.antt =====
-- `parse_stream` of 5_NetCalc/src/net_handler.c: the answer to one file of equations.
use net_calc.Prelude.{ℕ, zero, suc, ◌+◌, ◌-◌, ◌^◌, ◌*◌, Option, none, some}
use net_calc.Prelude.{◌==◌, if◌then◌else◌}
use net_calc.Prelude.Int.{pos, pos_part}
use net_calc.Words.{Status, success, error, Outcome, returns, undefined, num, fits}
use net_calc.FileIo.Stream.{Input, Output}
use net_calc.FileIo.Safe.{ReadOutcome, safe_read}
use net_calc.CalcHandle.Defs.{Calc}
use net_calc.CalcHandle.Solve.{evaluate}
use net_calc.NetHandler.Packed.{FileHeader, Equation, equation_of, NetHeader}
use net_calc.NetHandler.Messages.{HeaderCheck, check_header, equation_size, write_stream}
use net_calc.NetHandler.Messages.{net_header_size, header_size, solution_size}
use net_calc.NetHandler.Messages.{write_net_header, send_error_header, write_file_header}

-- How the function ends: with a status, what has not been read and what was written; by behaviour
-- that C leaves undefined; or out of fuel.
pub data Ending : Type 0 where
  ended : Status → Input → Output → Ending
  ends_undefined : Ending
  out_of_fuel : Ending

-- After a solved equation: 0 bytes written end the loop, and so does the counter's overflow.
abbrev pub after_write :
    (Status → Input → Output → Ending) → ℕ → Input → Option (ℕ × Output) → Ending
after_write continue equations_read rest none = out_of_fuel
after_write continue equations_read rest (some (num_bytes, out)) =
    if num_bytes == 0 then ended success rest out else continue success rest out

-- `p_new_calc` after `set_calc_file` and `solve_func`.
abbrev pub after_solve :
    (Status → Input → Output → Ending)
    → ℕ
    → Equation
    → Input
    → Output
    → Outcome (Option Calc)
    → Ending
after_solve continue equations_read equation rest out undefined = ends_undefined
after_solve continue equations_read equation rest out (returns error p_calc) = ended error rest out
after_solve continue equations_read equation rest out (returns success none) = ended error rest out
after_solve continue equations_read equation rest out (returns success (some calc)) =
    if equations_read == 2 ^ 31 - 1
    then ends_undefined
    else after_write continue equations_read rest (write_stream calc equation out)

-- After the read of an equation. A read that is not whole ends the loop with the status of the step
-- before, which is SUCCESS.
abbrev pub after_read :
    (Status → Input → Output → Ending) → ℕ → Status → Output → Option ReadOutcome → Ending
after_read continue equations_read err out none = out_of_fuel
after_read continue equations_read err out (some r) =
    if r.value == equation_size
    then (let equation = equation_of r.buffer in
        after_solve continue equations_read equation r.rest out
          (evaluate 63 equation.oper equation.num1 equation.num2))
    else ended err r.rest out

-- The loop with `left` equations to go, `err` being the status of the last step.
unfoldable pub equations_loop : ℕ → ℕ → Status → Input → Output → Ending
equations_loop zero equations_read err input out = ended err input out
equations_loop (suc left) equations_read err input out =
    after_read (λ e i o. equations_loop left (equations_read + 1) e i o) equations_read err out
      (safe_read equation_size input)

abbrev pub after_file_header : ℕ → Input → Option (Status × Output) → Ending
after_file_header num_equations input none = out_of_fuel
after_file_header num_equations input (some (error, out)) = ended error input out
after_file_header num_equations input (some (success, out)) =
    equations_loop num_equations 0 success input out

abbrev pub after_net_header : FileHeader → ℕ → Input → Option (Status × Output) → Ending
after_net_header header num_equations input none = out_of_fuel
after_net_header header num_equations input (some (error, out)) = ended error input out
after_net_header header num_equations input (some (success, out)) =
    after_file_header num_equations input (write_file_header header out)

abbrev pub refuse_file : Input → Option (Status × Output) → Ending
refuse_file input none = out_of_fuel
refuse_file input (some (err, out)) = ended error input out

-- `write_net_header` computes the size of its file in an int64_t, which can overflow.
abbrev pub after_check : NetHeader → Output → Option HeaderCheck → Ending
after_check net_header out none = out_of_fuel
after_check net_header out (some (error, header, input)) = refuse_file input (send_error_header out)
after_check net_header out (some (success, header, input)) =
    let num_equations = pos_part (num 63 header.num_equations) in
    if fits 63 (pos (net_header_size + header_size + solution_size * num_equations))
    then after_net_header header num_equations input (write_net_header net_header num_equations out)
    else ends_undefined

unfoldable pub parse_stream : NetHeader → Input → Output → Ending
parse_stream net_header input out = after_check net_header out (check_header input)
