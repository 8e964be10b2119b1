-- ===== src/FileHandler/Tests.antt =====
-- Runs of the file handler, and the theorems at concrete files.
use net_calc.Prelude.{◌^◌, ◌≡◌, ◌≢◌, refl, arith, inl, true, none, some, List, [], ◌∷◌}
use net_calc.Prelude.Int.{pos}
use net_calc.Words.{success, error}
use net_calc.FileIo.Stream.{piece, failure, refuse}
use net_calc.NetHandler.Stream.{out_of_fuel}
use net_calc.NetHandler.Samples.{header_for, outlet}
use net_calc.FileHandler.Process.{parse_file}
use net_calc.FileHandler.Directory.{Entry, Job, parsed, directory_parse, job_for}
use net_calc.FileHandler.Total.{parse_file_total}
use net_calc.FileHandler.Jobs.{entry_of, AllSolve}
use net_calc.FileHandler.Parse.{directory_parse_solves, directory_parse_stops}
use net_calc.FileHandler.Samples.{task, task-IsGood}

-- 2 ^ 32 promised equations are none in an int.
too_many : (job_for (pos 5) 6 (header_for (2 ^ 32) 0) [] outlet).args.num_equations ≡ pos 0
too_many = refl

parse_file_total_example :
    parse_file
      (some (record { in_file_stream = pos 5; out_file_stream = pos 6; num_equations = pos 3 }))
      true
      (piece (1 ∷ 2 ∷ []) ∷ failure true ∷ [])
      (record { written = []; calls = refuse ∷ [] })
    ≢ out_of_fuel
parse_file_total_example =
    parse_file_total
      (some (record { in_file_stream = pos 5; out_file_stream = pos 6; num_equations = pos 3 }))
      true (piece (1 ∷ 2 ∷ []) ∷ failure true ∷ []) (record { written = []; calls = refuse ∷ [] })

directory_parse_solves_example :
    (jobs : List Job) × (directory_parse true (entry_of (task 5) ∷ []) (2 ∷ [])
      ≡ parsed success jobs)
    × AllSolve (task 5 ∷ []) jobs
directory_parse_solves_example =
    directory_parse_solves (task 5 ∷ []) 2 [] (task-IsGood, tt) (λ e. absurd (omega (arith, e)))

abbrev unreadable : Entry
unreadable = record {
  d_name = b'b' ∷ [];
  formatted = true;
  opened = none;
  out_formatted = true;
  created = none;
}

directory_parse_stops_example :
    (jobs : List Job) × (directory_parse true
        (entry_of (task 5) ∷ unreadable ∷ entry_of (task 7) ∷ [])
        (2 ∷ [])
      ≡ parsed error jobs)
    × AllSolve (task 5 ∷ []) jobs
directory_parse_stops_example =
    directory_parse_stops (task 5 ∷ []) unreadable (entry_of (task 7) ∷ []) (2 ∷ [])
      (task-IsGood, tt) refl refl (inl refl)
