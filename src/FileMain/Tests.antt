-- ===== src/FileMain/Tests.antt =====
-- Command lines of the file calculator, and the theorem at one.
use net_calc.Prelude.{ℕ, ◌≡◌, ◌≤◌, ◌<◌, refl, Bool, true, [], ◌∷◌}
use net_calc.Prelude.Int.{◌-ℤ◌}
use net_calc.Words.{success}
use net_calc.CalcHandle.Opers.{CString}
use net_calc.SimpleCalc.Samples.{read_signed}
use net_calc.NetMain.Options.{n_option, check_convert_to_long}
use net_calc.FileMain.Main.{
  min_args, max_args, directory, threads_loop, exits, check_directory, thread_main,
}
use net_calc.FileMain.Started.{IsOpen, thread_main_parses}

abbrev input : CString
input = b'i' ∷ []

abbrev output : CString
output = b'o' ∷ []

abbrev eight : CString
eight = b'8' ∷ []

abbrev found : CString → Bool
found name = true

abbrev any_pool : ℕ → Bool
any_pool count = true

-- "-n 8 i o" are five arguments with the program's name, and too many.
separate_number :
    thread_main read_signed found found any_pool success 5
      (n_option eight ∷ [])
      (input ∷ output ∷ [])
    ≡ exits
unfolding thread_main
separate_number = refl

thread_main_parses_example :
    (min_args ≤ 4)
    × (4 ≤ max_args)
    × (0 < 8)
    × (any_pool 8 ≡ true)
    × IsOpen found found input
    × IsOpen found found output
    × (directory (input ∷ output ∷ []) 0 ≡ input)
    × (directory (input ∷ output ∷ []) 1 ≡ output)
unfolding thread_main threads_loop check_convert_to_long check_directory ◌-ℤ◌
thread_main_parses_example =
    thread_main_parses found found any_pool read_signed success 4 (n_option eight ∷ [])
      (input ∷ output ∷ []) 8 input output refl
