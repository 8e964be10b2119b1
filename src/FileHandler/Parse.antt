-- ===== src/FileHandler/Parse.antt =====
-- What `directory_parse` makes of a directory, up to the first entry that it does not take.
use net_calc.Prelude.{
  ℕ, ◌^◌, ◌≤◌, ◌≡◌, ◌≢◌, ◌⊎◌, ◌∙◌, inl, inr, refl, sym, ap, arith, true, false, some, none, List,
  [], ◌∷◌, ◌++◌, map,
}
use net_calc.Prelude.{append-nil, if◌then◌else◌, ◌==◌}
use net_calc.Words.{success, error}
use net_calc.FileIo.Stream.{Input, piece, piece_left}
use net_calc.FileIo.Safe.{safe_read, goes_on, read_loop}
use net_calc.NetHandler.Packed.{FileHeader, header_bytes}
use net_calc.NetHandler.Messages.{HeaderCheck, solved_header}
use net_calc.NetHandler.Messages
use net_calc.NetHandler.Layout.{HeaderFits}
use net_calc.NetHandler.Exchange.{check_lem}
use net_calc.NetHandler.Refusals.{judged_bad}
use net_calc.FileHandler.Directory.{
  Entry, Job, parsed, check_header, entries_loop, wait_signal, directory_parse, is_hidden, contents,
}
use net_calc.FileHandler.Jobs.{Task, entry_of, AllGood, AllSolve, entries_good}

-- If the directory has only entries that are not hidden and can be opened, each with a file that
-- arrives as one piece of an accepted header, which promises fewer than 2 ^ 31 equations, and of
-- equations that are solved by the records beside them, if the solved files are opened and take
-- every write, with descriptors of at least 2 on both sides, and if the signal has come, then
-- directory_parse returns SUCCESS with one job for each file, in order, and parse_file, run on a
-- job, has written the header marked as solved and the solutions in order when it ends, with the
-- status of closing the file.
pub directory_parse_solves :
    (tasks : List Task) (flag : ℕ) (flags : List ℕ)
    → AllGood tasks
    → flag ≢ 0
    → (jobs : List Job) × (directory_parse true (map entry_of tasks) (flag ∷ flags)
        ≡ parsed success jobs)
      × AllSolve tasks jobs
unfolding directory_parse entries_loop wait_signal
directory_parse_solves tasks flag flags good signal =
    let (jobs, handled, solve) = entries_good tasks [] (flag ∷ flags) [] good in
    (
      jobs,
      ap (λ es. entries_loop es (flag ∷ flags) []) (sym (append-nil (map entry_of tasks)))
          ∙ handled
          ∙ ap (λ b. if b then wait_signal flags jobs else parsed success jobs)
              (is_signal flag signal),
      solve,
    )
  where
    is_signal : (n : ℕ) → n ≢ 0 → (n == 0) ≡ false
    is_signal n h = ground arith

-- An entry that cannot be opened, or whose header is refused.
abbrev pub IsBad : Entry → Type 0
IsBad e =
    (e.opened ≡ none)
    ⊎ ((file_d : ℕ) × (h : FileHeader) × (rest : List ℕ) × (input : Input) × (e.opened
          ≡ some (file_d, piece (header_bytes h ++ rest) ∷ input))
        × HeaderFits h
        × ((h.is_solved ≢ 0) ⊎ ((h.num_equations ≡ 0) ⊎ (2 ^ 63 ≤ h.num_equations))))

refused_header :
    (h : FileHeader) (rest : List ℕ) (input : Input)
    → HeaderFits h
    → (h.is_solved ≢ 0) ⊎ ((h.num_equations ≡ 0) ⊎ (2 ^ 63 ≤ h.num_equations))
    → check_header (piece (header_bytes h ++ rest) ∷ input) ≡ some (error, h, piece_left rest input)
unfolding check_header Messages.check_header
refused_header h rest input h_fits bad =
    check_lem h rest input h_fits ∙ ap some (judged_bad h (piece_left rest input) bad)

refused :
    (e : Entry)
    → IsBad e
    → (h : FileHeader) × (rest : Input) × (check_header (contents e.opened) ≡ some (error, h, rest))
unfolding check_header safe_read goes_on read_loop
refused e (inl closed) = rw closed (_, _, refl)
refused e (inr (file_d, h, rest, input, opened, h_fits, bad)) = (
  h,
  piece_left rest input,
  ap (λ o. check_header (contents o)) opened ∙ refused_header h rest input h_fits bad,
)

-- If behind entries with such files comes one that is not hidden and cannot be opened, or whose
-- first piece begins with the bytes of a header that is marked as solved or promises no equation
-- or a negative number of them, directory_parse returns ERROR with the jobs of the files before
-- it, which write their solved files when they are run; the entries that follow are never looked
-- at.
pub directory_parse_stops :
    (tasks : List Task) (bad : Entry) (entries : List Entry) (flags : List ℕ)
    → AllGood tasks
    → is_hidden bad.d_name ≡ false
    → bad.formatted ≡ true
    → IsBad bad
    → (jobs : List Job) × (directory_parse true (map entry_of tasks ++ (bad ∷ entries)) flags
        ≡ parsed error jobs)
      × AllSolve tasks jobs
unfolding directory_parse entries_loop
directory_parse_stops tasks bad entries flags good visible formatted is_bad =
    let (jobs, handled, solve) = entries_good tasks (bad ∷ entries) flags [] good in
    let (h, rest, check) = refused bad is_bad in
    (jobs, handled ∙ rw (visible, formatted, check) refl, solve)
