-- ===== src/FileMain/Main.antt =====
-- `main` of 4_ThreadCalc/src/thread_main.c, with `check_in_directory` and `check_out_directory` of
-- 4_ThreadCalc/src/thread_handle.c. What `getopt` finds, `strtol` and what the other calls return
-- are parameters.
use net_calc.Prelude.{
  ℕ, zero, suc, Bool, false, ◌||◌, Option, none, some, List, [], ◌∷◌, take, ltb, ◌==◌,
  if◌then◌else◌,
}
use net_calc.Prelude.Int.{ℤ}
use net_calc.Words.{Status, success, error, of_num}
use net_calc.MathFuncs.Widths.{sign64}
use net_calc.CalcHandle.Opers.{CString}
use net_calc.SimpleCalc.Convert.{Number}
use net_calc.NetMain.Options
use net_calc.NetMain.Options.{Opt, n_option, p_option, help, unknown, missing}

abbrev pub min_args : ℕ
min_args = 3

abbrev pub max_args : ℕ
max_args = 4

abbrev pub max_path : ℕ
max_path = 4096

-- Whether the name resolves and the directory opens; the descriptor stays NULL if it does not open,
-- since the pointer to it is tested in its place.
unfoldable pub check_directory : (CString → Bool) → (CString → Bool) → CString → Status × Bool
check_directory resolves opens directory_name =
    if resolves directory_name then (success, opens directory_name) else (error, false)

-- The copy in thread_handle.c, with the same text.
abbrev pub check_convert_to_long : ℕ → ℤ → CString → Status
check_convert_to_long = Options.check_convert_to_long

-- The number of threads behind the options; none, if the program leaves.
abbrev pub on_converted : Status → Option ℕ → Option ℕ
on_converted error rest = none
on_converted success rest = rest

module _ (strtol : CString → ℕ → Number ℤ) where
  unfoldable pub threads_loop : List Opt → ℕ → Option ℕ
  threads_loop [] num_threads = some num_threads
  threads_loop (n_option optarg ∷ opts) num_threads =
      let tester = strtol optarg 10 in
      on_converted (check_convert_to_long tester.errno tester.value tester.rest)
        (threads_loop opts (of_num sign64 tester.value))
  threads_loop (p_option optarg ∷ opts) num_threads = none
  threads_loop (help ∷ opts) num_threads = none
  threads_loop (unknown ∷ opts) num_threads = none
  threads_loop (missing ∷ opts) num_threads = none

-- `directories`, from the arguments that are not options.
abbrev pub argument : List CString → ℕ → CString
argument [] i = []
argument (a ∷ arguments) zero = a
argument (a ∷ arguments) (suc i) = argument arguments i

abbrev pub directory : List CString → ℕ → CString
directory arguments i = take 4095 (argument arguments i)

-- The program always returns 0. It leaves, or calls `directory_parse` with a pool of so many
-- threads on an input and an output directory.
pub data Run : Type 0 where
  exits : Run
  parses : ℕ → CString → CString → Run

abbrev pub with_pool : (ℕ → Bool) → ℕ → CString → CString → Run
with_pool has_pool threads in_dir out_dir =
    if has_pool threads then parses threads in_dir out_dir else exits

-- What follows the check of a directory: an error or a NULL descriptor ends the program.
abbrev pub if_open : Status × Bool → Run → Run
if_open (error, opened) rest = exits
if_open (success, opened) rest = if opened then rest else exits

abbrev pub after_signals :
    (CString → Bool) → (CString → Bool) → (ℕ → Bool) → List CString → ℕ → Status → Run
after_signals resolves opens has_pool arguments threads error = exits
after_signals resolves opens has_pool arguments threads success =
    if_open (check_directory resolves opens (directory arguments 0)) (
      if_open (check_directory resolves opens (directory arguments 1))
        (with_pool has_pool threads (directory arguments 0) (directory arguments 1)))

abbrev pub after_options :
    (CString → Bool) → (CString → Bool) → (ℕ → Bool) → List CString → Status → Option ℕ → Run
after_options resolves opens has_pool arguments signals none = exits
after_options resolves opens has_pool arguments signals (some num_threads) =
    after_signals resolves opens has_pool arguments (if num_threads == 0 then 4 else num_threads)
      signals

unfoldable pub thread_main :
    (CString → ℕ → Number ℤ)
    → (CString → Bool)
    → (CString → Bool)
    → (ℕ → Bool)
    → Status
    → ℕ
    → List Opt
    → List CString
    → Run
thread_main strtol resolves opens has_pool signals argc opts arguments =
    if ltb argc min_args || ltb max_args argc
    then exits
    else after_options resolves opens has_pool arguments signals (threads_loop strtol opts 0)
