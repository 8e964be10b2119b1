-- ===== src/NetMain/Tests.antt =====
-- Options at concrete texts, and the theorem at them.
use net_calc.Prelude.{ℕ, ◌≡◌, ◌<◌, refl, Bool, true, false, [], ◌∷◌}
use net_calc.Prelude.Int.{pos, ◌-ℤ◌}
use net_calc.Words.{success, error}
use net_calc.CalcHandle.Opers.{CString}
use net_calc.SimpleCalc.Samples.{read_signed}
use net_calc.NetMain.Options.{
  n_option, p_option, unknown, default_port, check_convert_to_long, options_loop, exits, serves,
  net_main,
}
use net_calc.NetMain.Started.{PortFrom, net_main_serves}

abbrev eight : CString
eight = b'8' ∷ []

abbrev port_2000 : CString
port_2000 = b'2' ∷ b'0' ∷ b'0' ∷ b'0' ∷ []

abbrev any_pool : ℕ → Bool
any_pool count = true

no_options :
    net_main read_signed [] 0 false success any_pool (λ port. success)
    ≡ serves 4 default_port success
unfolding net_main options_loop
no_options = refl

-- The end of the text counts as a byte 0, so that the number 0 is refused.
zero_refused : check_convert_to_long 0 (pos 0) [] ≡ error
unfolding check_convert_to_long
zero_refused = refl

-- A port that is out of range, or an unknown option behind a good one, ends with 0.
small_port :
    net_main read_signed (p_option eight ∷ []) 0 false success any_pool (λ port. success)
    ≡ exits success
unfolding net_main options_loop check_convert_to_long
small_port = refl

unknown_behind :
    net_main read_signed (n_option eight ∷ unknown ∷ []) 0 false success any_pool (λ port. success)
    ≡ exits success
unfolding net_main options_loop check_convert_to_long ◌-ℤ◌
unknown_behind = refl

-- The sixth character of a port is cut off: 2000 is served on 200.
port_cut :
    net_main read_signed
      (p_option (b'0' ∷ b'0' ∷ port_2000) ∷ [])
      0
      false
      success
      any_pool
      (λ port. success)
    ≡ serves 4 (b'0' ∷ b'0' ∷ b'2' ∷ b'0' ∷ b'0' ∷ []) success
unfolding net_main options_loop check_convert_to_long
port_cut = refl

net_main_serves_example :
    (0 < 8)
    × (any_pool 8 ≡ true)
    × PortFrom read_signed default_port (n_option eight ∷ p_option port_2000 ∷ []) port_2000
unfolding net_main options_loop check_convert_to_long
net_main_serves_example =
    net_main_serves read_signed (n_option eight ∷ p_option port_2000 ∷ []) 0 false success any_pool
      (λ port. success) 8 port_2000 success refl
