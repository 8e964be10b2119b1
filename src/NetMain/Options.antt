-- ===== src/NetMain/Options.antt =====
-- `main` of 5_NetCalc/src/net_main.c, and `check_convert_to_long` of 5_NetCalc/src/net_converts.c,
-- of which 4_ThreadCalc/src/thread_handle.c has a copy. `strtol`, the options that `getopt` finds
-- and what the calls behind them return are parameters.
use net_calc.Prelude.{ℕ, Bool, true, false, ◌||◌, not, List, [], ◌∷◌, take, if◌then◌else◌, ◌==◌}
use net_calc.Prelude.Int.{ℤ, pos, ltb_ℤ, eqb_ℤ}
use net_calc.Words.{Status, success, error, of_num, int_max, int_min}
use net_calc.MathFuncs.Widths.{sign32, sign64}
use net_calc.CalcHandle.Opers.{CString}
use net_calc.SimpleCalc.Convert.{Number, base, char_at}

-- The third argument is the text at the end pointer, which is never NULL. The tests of ERANGE stand
-- behind the test that `errno_` is 0, and fail.
unfoldable pub check_convert_to_long : ℕ → ℤ → CString → Status
check_convert_to_long errno_ tester rest =
    if not (errno_ == 0)
    then error
    else if ltb_ℤ (int_max sign32) tester || ltb_ℤ tester (int_min sign32)
    then error
    else if eqb_ℤ tester (char_at rest)
    then error
    else success

-- What a call of `getopt` returns, with `optarg`; `missing` is ':', which no case takes.
pub data Opt : Type 0 where
  n_option : CString → Opt
  p_option : CString → Opt
  help : Opt
  unknown : Opt
  missing : Opt

-- `port` is empty as long as it is not set.
pub record Settings : Type 0 where
  pub err : Status
  pub num_threads : ℕ
  pub port : CString

-- The options are read, or the program leaves with a status: at END, or at EXIT.
pub data Choice : Type 0 where
  chosen : Settings → Choice
  leaves : Status → Choice

abbrev pub is_empty : CString → Bool
is_empty [] = true
is_empty (c ∷ s) = false

-- What follows the conversion of a number; `go_on` is the rest of the loop.
abbrev pub set_threads : (Settings → Choice) → Settings → ℤ → Status → Choice
set_threads go_on settings tester error = leaves error
set_threads go_on settings tester success =
    go_on (record settings { err = success; num_threads = of_num sign64 tester })

abbrev pub set_port : (Settings → Choice) → Settings → CString → ℤ → Status → Choice
set_port go_on settings optarg tester error = leaves error
set_port go_on settings optarg tester success =
    if ltb_ℤ tester (pos 2000) || ltb_ℤ (pos 65535) tester
    then leaves success
    else go_on (record settings { err = success; port = take 5 optarg })

module _ (strtol : CString → ℕ → Number ℤ) where
  abbrev pub converted : CString → Status
  converted optarg =
      check_convert_to_long (strtol optarg base).errno (strtol optarg base).value
        (strtol optarg base).rest

  abbrev pub take_option : (Settings → Choice) → Settings → Opt → Choice
  take_option go_on settings (n_option optarg) =
      set_threads go_on settings (strtol optarg base).value (converted optarg)
  take_option go_on settings (p_option optarg) =
      if is_empty settings.port
      then set_port go_on settings optarg (strtol optarg base).value (converted optarg)
      else leaves settings.err
  take_option go_on settings help = leaves settings.err
  take_option go_on settings unknown = leaves settings.err
  take_option go_on settings missing = go_on settings

  unfoldable pub options_loop : List Opt → Settings → Choice
  options_loop [] settings = chosen settings
  options_loop (opt ∷ opts) settings = take_option (λ s. options_loop opts s) settings opt

-- The tests behind the loop, on `optopt` and on whether an argument is left, and the defaults.
abbrev pub default_port : CString
default_port = b'3' ∷ b'1' ∷ b'3' ∷ b'3' ∷ b'7' ∷ []

abbrev pub with_defaults : Settings → Settings
with_defaults s = record s {
  num_threads = if s.num_threads == 0 then 4 else s.num_threads;
  port = if is_empty s.port then default_port else s.port;
}

abbrev pub judge_options : ℕ → Bool → Choice → Choice
judge_options optopt argument_left (leaves err) = leaves err
judge_options optopt argument_left (chosen s) =
    if not (optopt == 0)
    then leaves s.err
    else if argument_left
    then leaves s.err
    else chosen (with_defaults s)

-- The program's status, and the number of threads and the port of the listener, if it is started.
pub data Run : Type 0 where
  exits : Status → Run
  serves : ℕ → CString → Status → Run

-- `signals` is what `signal_action_setup` returns, `has_pool` whether `threadpool_create` succeeds
-- for a number of threads, and `listener` what `start_listener` returns for a port.
abbrev pub start : Status → (ℕ → Bool) → (CString → Status) → Choice → Run
start signals has_pool listener (leaves err) = exits err
start error has_pool listener (chosen s) = exits error
start success has_pool listener (chosen s) =
    if has_pool s.num_threads then serves s.num_threads s.port (listener s.port) else exits success

abbrev pub first_settings : Settings
first_settings = record { err = error; num_threads = 0; port = [] }

unfoldable pub net_main :
    (CString → ℕ → Number ℤ) → List Opt → ℕ → Bool → Status → (ℕ → Bool) → (CString → Status) → Run
net_main strtol opts optopt argument_left signals has_pool listener =
    start signals has_pool listener
      (judge_options optopt argument_left (options_loop strtol opts first_settings))
