-- ===== src/FileHandler/Jobs.antt =====
-- From the entries of a directory to the solved files.
use net_calc.Prelude.{
  ℕ, ◌^◌, ◌%◌, ◌≤◌, ◌<◌, ◌≡◌, ◌∙◌, sym, ap, arith, Bool, true, false, some, none, List, [], ◌∷◌,
  ◌++◌, map,
}
use net_calc.Prelude.{append_assoc, append-nil, if◌then◌else◌, ltb}
use net_calc.Prelude.Int.{pos, ltb_ℤ}
use net_calc.Words.{success, error, num}
use net_calc.FileIo.Stream.{Output, piece, piece_left}
use net_calc.FileIo.Safe.{safe_close}
use net_calc.FileIo.Write.{AllAccept, safe_write_all}
use net_calc.CalcHandle.Defs.{Calc}
use net_calc.NetHandler.Packed.{Equation, FileHeader, header_bytes}
use net_calc.NetHandler.Messages.{HeaderCheck, solved_header}
use net_calc.NetHandler.Messages
use net_calc.NetHandler.Loop.{SolvedBy, file_bytes, answer_bytes}
use net_calc.NetHandler.Exchange.{Accepted, check_lem, judged-Accepted}
use net_calc.NetHandler.Stream.{ended}
use net_calc.FileHandler.Process.{parse_file}
use net_calc.FileHandler.Directory.{
  Entry, Job, Parsed, parsed, check_header, create_file, job_for, after_create, after_check,
  handle_entry, entries_loop, is_hidden,
}
use net_calc.FileHandler.Loop.{process_equations_solves}

-- A file of equations in the directory, with the records that solve them.
pub record Task : Type 0 where
  pub d_name : List ℕ
  pub in_file : ℕ
  pub out_file : ℕ
  pub header : FileHeader
  pub equations : List Equation
  pub calcs : List Calc
  pub out : Output

abbrev pub entry_of : Task → Entry
entry_of t = record {
  d_name = t.d_name;
  formatted = true;
  opened = some (t.in_file, piece (header_bytes t.header ++ file_bytes t.equations) ∷ []);
  out_formatted = true;
  created = some (t.out_file, t.out);
}

-- The file is visible, its header is accepted and fits into an int, its equations are solved, and
-- it can be written.
pub record IsGood (t : Task) : Type 0 where
  pub visible : is_hidden t.d_name ≡ false
  pub descriptors : (2 ≤ t.in_file) × (2 ≤ t.out_file)
  pub accepted : Accepted t.header
  pub promised : t.header.num_equations < 2 ^ 31
  pub solves : SolvedBy t.equations t.calcs
  pub accepting : AllAccept t.out.calls

abbrev pub AllGood : List Task → Type 0
AllGood [] = Unit {0}
AllGood (t ∷ tasks) = IsGood t × AllGood tasks

-- The job, when it is run, writes the solved file behind what was there, and closes it.
abbrev pub Solves : Task → Job → Type 0
Solves t job =
    (closed : Bool)
    → (out' : Output) × (parse_file (some job.args) closed job.input job.out
        ≡ ended (if safe_close t.out_file closed then success else error) [] out')
      × (out'.written
          ≡ t.out.written
            ++ (header_bytes (solved_header t.header) ++ answer_bytes t.equations t.calcs))

abbrev pub AllSolve : List Task → List Job → Type 0
AllSolve [] [] = Unit {0}
AllSolve [] (j ∷ jobs) = ⊥
AllSolve (t ∷ tasks) [] = ⊥
AllSolve (t ∷ tasks) (j ∷ jobs) = Solves t j × AllSolve tasks jobs

check_good :
    (t : Task)
    → IsGood t
    → check_header (piece (header_bytes t.header ++ file_bytes t.equations) ∷ [])
      ≡ some (success, t.header, piece_left (file_bytes t.equations) [])
unfolding check_header Messages.check_header
check_good t good =
    check_lem t.header (file_bytes t.equations) [] good.accepted.0
    ∙ ap some (judged-Accepted t.header (piece_left (file_bytes t.equations) []) good.accepted)

-- The job that a good file becomes, with its output after the header.
abbrev job_of : Task → Output → Job
job_of t out =
    job_for (pos t.in_file) t.out_file t.header (piece_left (file_bytes t.equations) []) out

not_below : (n : ℕ) → 2 ≤ n → ltb n 2 ≡ false
not_below n h = ground arith

handle_good :
    (t : Task) (go_on : List Job → Parsed) (jobs : List Job)
    → IsGood t
    → (out' : Output) × (handle_entry go_on (entry_of t) jobs
        ≡ go_on (jobs ++ (job_of t out' ∷ [])))
      × (out'.written ≡ t.out.written ++ header_bytes (solved_header t.header))
      × AllAccept out'.calls
unfolding create_file
handle_good t go_on jobs good =
    let (out', wrote, all_written, still) =
      safe_write_all (header_bytes (solved_header t.header)) t.out good.accepting in
    (
      out',
      ap (after_check go_on (entry_of t) jobs) (check_good t good)
          ∙ ap
              (λ o.
                after_create go_on (pos t.in_file) t.header (piece_left (file_bytes t.equations) [])
                  jobs (elim o [ none ↦ none | some (bytes, w) ↦ some (some (t.out_file, w)) ]))
              wrote
          ∙ ap (λ b. if b then parsed success jobs else go_on (jobs ++ (job_of t out' ∷ [])))
              (not_below t.out_file good.descriptors.1),
      all_written,
      still,
    )

not_standard : (n : ℕ) → 2 ≤ n → ltb_ℤ (pos n) (pos 2) ≡ false
not_standard n h = ground arith

int_number : (n : ℕ) → 0 < n → n < 2 ^ 31 → ltb_ℤ (pos 0) (num 31 (n % 2 ^ 32)) ≡ true
int_number n p q = ground arith

job-Solves :
    (t : Task) (out : Output)
    → IsGood t
    → out.written ≡ t.out.written ++ header_bytes (solved_header t.header)
    → AllAccept out.calls
    → Solves t (job_of t out)
unfolding parse_file
job-Solves t out good begun accepting closed =
    let (out', ends, wrote) =
      process_equations_solves t.equations t.calcs (pos t.out_file) closed
        (num 31 (t.header.num_equations % 2 ^ 32)) out
        (int_number t.header.num_equations good.accepted.2 good.promised) good.solves accepting in
    (
      out',
      rw (not_standard t.in_file good.descriptors.0, not_standard t.out_file good.descriptors.1)
          ends,
      wrote
          ∙ ap (λ w. w ++ answer_bytes t.equations t.calcs) begun
          ∙ append_assoc t.out.written (header_bytes (solved_header t.header))
              (answer_bytes t.equations t.calcs),
    )

-- Good files become jobs, and the loop goes on with the entries behind them.
pub entries_good :
    (tasks : List Task) (entries : List Entry) (flags : List ℕ) (jobs : List Job)
    → AllGood tasks
    → (new : List Job) × (entries_loop (map entry_of tasks ++ entries) flags jobs
        ≡ entries_loop entries flags (jobs ++ new))
      × AllSolve tasks new
unfolding entries_loop
entries_good [] entries flags jobs good =
    ([], ap (entries_loop entries flags) (sym (append-nil jobs)), tt)
entries_good (t ∷ tasks) entries flags jobs (good, others) =
    let go_on : List Job → Parsed = λ js. entries_loop (map entry_of tasks ++ entries) flags js in
    let (out, handled, begun, still) = handle_good t go_on jobs good in
    let (new, rest, solve) =
      entries_good tasks entries flags (jobs ++ (job_of t out ∷ [])) others in
    (
      job_of t out ∷ new,
      ap (λ b. if b then go_on jobs else handle_entry go_on (entry_of t) jobs) good.visible
          ∙ handled
          ∙ rest
          ∙ ap (entries_loop entries flags) (append_assoc jobs (job_of t out ∷ []) new),
      (job-Solves t out good begun still, solve),
    )
