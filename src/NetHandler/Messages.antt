-- ===== src/NetHandler/Messages.antt =====
-- The functions of 5_NetCalc/src/net_handler.c that read or write one message. Pointers are not
-- NULL and allocations succeed; `none` is fuel that ran out in a loop of `FileIo.Safe`.
use net_calc.Prelude.{ℕ, zero, suc, ◌+◌, ◌*◌, Option, none, some, List, [], ◌∷◌, replicate}
use net_calc.Prelude.{◌==◌, leb, if◌then◌else◌}
use net_calc.Prelude.Int.{pos, ltb_ℤ}
use net_calc.Words.{Status, success, error, num}
use net_calc.FileIo.Stream.{Input, Output}
use net_calc.FileIo.Safe.{ReadOutcome, safe_read, safe_write}
use net_calc.CalcHandle.Defs.{Calc}
use net_calc.CalcHandle.Opers.{mod64}
use net_calc.NetHandler.Packed.{
  FileHeader, header_of, header_bytes, Equation, SolvedEquation, solution_bytes,
}
use net_calc.NetHandler.Packed.{NetHeader, net_header_bytes, swap_bytes}

abbrev pub header_size : ℕ
header_size = 27

abbrev pub equation_size : ℕ
equation_size = 32

abbrev pub solution_size : ℕ
solution_size = 14

abbrev pub net_header_size : ℕ
net_header_size = 48

abbrev pub max_filename_len : ℕ
max_filename_len = 32

-- What `check_header` leaves: its status, the header, and what has not been read.
abbrev pub HeaderCheck : Type 0
HeaderCheck = Status × FileHeader × Input

abbrev pub judge_header : ReadOutcome → HeaderCheck
judge_header r =
    let header = header_of r.buffer in
    if r.value == header_size
    then (if header.is_solved == 0
        then (if ltb_ℤ (pos 0) (num 63 header.num_equations)
            then (success, header, r.rest)
            else (error, header, r.rest))
        else (error, header, r.rest))
    else (error, header, r.rest)

unfoldable pub check_header : Input → Option HeaderCheck
check_header input = elim (safe_read header_size input) [
  | none ↦ none
  | some r ↦ some (judge_header r)
]

-- INT is 1 and UINT is 2 in `enum solve`.
abbrev pub solved : Calc → Equation → SolvedEquation
solved calc equation = record {
  equation_id = equation.equation_id;
  is_solved = 1;
  solution_type = if leb calc.oper mod64 then 1 else 2;
  solution = calc.result;
}

-- The value of `safe_write` and the descriptor after it.
unfoldable pub write_stream : Calc → Equation → Output → Option (ℕ × Output)
write_stream calc equation out = safe_write (solution_bytes (solved calc equation)) out

-- `strncpy(dst, src, n)`: up to the first zero, and zeros to the end.
abbrev pub strncpy : ℕ → List ℕ → List ℕ
strncpy zero src = []
strncpy (suc n) [] = 0 ∷ strncpy n []
strncpy (suc n) (c ∷ src) = c ∷ (if c == 0 then replicate n 0 else strncpy n src)

-- The header that answers `header`, whose `file_name_len` has been turned round in place.
abbrev pub answer_header : NetHeader → ℕ → NetHeader
answer_header header num_equations =
    let file_name_len = swap_bytes 4 header.file_name_len in
    record {
      header_size = swap_bytes 4 net_header_size;
      file_name_len = swap_bytes 4 file_name_len;
      file_size = swap_bytes 8 (net_header_size + header_size + solution_size * num_equations);
      filename = strncpy max_filename_len header.filename;
    }

-- A failed write is not noticed: the status is SUCCESS.
abbrev pub ignore_value : Option (ℕ × Output) → Option (Status × Output)
ignore_value none = none
ignore_value (some (value, out)) = some (success, out)

unfoldable pub write_net_header : NetHeader → ℕ → Output → Option (Status × Output)
write_net_header header num_equations out =
    ignore_value (safe_write (net_header_bytes (answer_header header num_equations)) out)

abbrev pub error_header : NetHeader
error_header = record {
  header_size = swap_bytes 4 net_header_size;
  file_name_len = swap_bytes 4 0;
  file_size = swap_bytes 8 48;
  filename = strncpy max_filename_len [];
}

unfoldable pub send_error_header : Output → Option (Status × Output)
send_error_header out = ignore_value (safe_write (net_header_bytes error_header) out)

abbrev pub solved_header : FileHeader → FileHeader
solved_header h = record h { is_solved = 1 }

unfoldable pub write_file_header : FileHeader → Output → Option (Status × Output)
write_file_header header out = ignore_value (safe_write (header_bytes (solved_header header)) out)
