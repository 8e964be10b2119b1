-- ===== src/FileHandler/Directory.antt =====
-- `directory_parse` of 4_ThreadCalc/src/thread_handle.c and what it calls. What the calls of the
-- system and of `snprintf` bring for each entry of the directory is an argument.
use net_calc.Prelude.{ℕ, ◌^◌, ◌%◌, Bool, true, false, Option, none, some, List, [], ◌∷◌, ◌++◌}
use net_calc.Prelude.{◌==◌, ltb, if◌then◌else◌}
use net_calc.Prelude.Int.{ℤ, pos, negsuc}
use net_calc.Words.{Status, success, error, num}
use net_calc.FileIo.Stream.{Input, failure, Output}
use net_calc.FileIo.Safe.{safe_read, safe_write}
use net_calc.NetHandler.Packed.{FileHeader, header_bytes}
use net_calc.NetHandler.Messages.{header_size, HeaderCheck, judge_header, solved_header}
use net_calc.FileHandler.Process.{ParseArgs}

-- An entry with: whether its path is formatted, its descriptor and contents if it can be opened,
-- whether the path of its solved file is formatted, and that file if it can be opened.
pub record Entry : Type 0 where
  pub d_name : List ℕ
  pub formatted : Bool
  pub opened : Option (ℕ × Input)
  pub out_formatted : Bool
  pub created : Option (ℕ × Output)

-- A call of `threadpool_add_job`, with the two files as they are then.
pub record Job : Type 0 where
  pub args : ParseArgs
  pub input : Input
  pub out : Output

-- The status with the jobs in the order of the calls; or the loop goes round with no entry left and
-- no signal; or fuel ran out in a loop of `FileIo.Safe`.
pub data Parsed : Type 0 where
  parsed : Status → List Job → Parsed
  spins : List Job → Parsed
  stuck : Parsed

-- `strncmp(d_name, ".", 1)` and the same for ".."
abbrev pub is_hidden : List ℕ → Bool
is_hidden [] = false
is_hidden (c ∷ name) = c == b'.'

-- A read from the descriptor -1 fails.
abbrev pub contents : Option (ℕ × Input) → Input
contents none = failure false ∷ []
contents (some (file_d, input)) = input

abbrev pub descriptor : Option (ℕ × Input) → ℤ
descriptor none = negsuc 0
descriptor (some (file_d, input)) = pos file_d

unfoldable pub check_header : Input → Option HeaderCheck
check_header input = elim (safe_read header_size input) [
  | none ↦ none
  | some r ↦ some (judge_header r)
]

-- The descriptor, if it is not -1, with the file after the header is written to it. A failed write
-- is not noticed.
unfoldable pub create_file : Bool → Option (ℕ × Output) → FileHeader → Option (Option (ℕ × Output))
create_file false created header = some none
create_file true none header = some none
create_file true (some (file_des, out)) header =
    elim (safe_write (header_bytes (solved_header header)) out) [
      | none ↦ none
      | some (bytes, out') ↦ some (some (file_des, out'))
    ]

-- The number of equations is an int64_t that goes into an int.
abbrev pub job_for : ℤ → ℕ → FileHeader → Input → Output → Job
job_for file_d out_file_des header input out = record {
  args = record {
    in_file_stream = file_d;
    out_file_stream = pos out_file_des;
    num_equations = num 31 (header.num_equations % 2 ^ 32);
  };
  input = input;
  out = out;
}

-- `err` holds SUCCESS when `create_file` fails.
abbrev pub after_create :
    (List Job → Parsed) → ℤ → FileHeader → Input → List Job → Option (Option (ℕ × Output)) → Parsed
after_create continue file_d header input jobs none = stuck
after_create continue file_d header input jobs (some none) = parsed success jobs
after_create continue file_d header input jobs (some (some (out_file_des, out))) =
    if ltb out_file_des 2
    then parsed success jobs
    else continue (jobs ++ (job_for file_d out_file_des header input out ∷ []))

abbrev pub after_check : (List Job → Parsed) → Entry → List Job → Option HeaderCheck → Parsed
after_check continue entry jobs none = stuck
after_check continue entry jobs (some (error, header, input)) = parsed error jobs
after_check continue entry jobs (some (success, header, input)) =
    after_create continue (descriptor entry.opened) header input jobs
      (create_file entry.out_formatted entry.created header)

abbrev pub handle_entry : (List Job → Parsed) → Entry → List Job → Parsed
handle_entry continue entry jobs =
    if entry.formatted
    then after_check continue entry jobs (check_header (contents entry.opened))
    else parsed error jobs

-- The outer loop with no entry left: each look at `signal_flag_g` is one of `flags`.
unfoldable pub wait_signal : List ℕ → List Job → Parsed
wait_signal [] jobs = spins jobs
wait_signal (flag ∷ flags) jobs = if flag == 0 then wait_signal flags jobs else parsed success jobs

unfoldable pub entries_loop : List Entry → List ℕ → List Job → Parsed
entries_loop [] flags jobs = wait_signal flags jobs
entries_loop (entry ∷ entries) flags jobs =
    let go_on = λ (js : List Job). entries_loop entries flags js in
    if is_hidden entry.d_name then go_on jobs else handle_entry go_on entry jobs

-- `resolved`: `realpath` of the output directory succeeds. The other arguments are not NULL.
unfoldable pub directory_parse : Bool → List Entry → List ℕ → Parsed
directory_parse false entries flags = parsed error []
directory_parse true entries flags = entries_loop entries flags []
