-- ===== src/Signals/Tests.antt =====
-- The wait for a signal, with SIGUSR1 10 and SIGINT 2.
use net_calc.Prelude.{◌≡◌, refl, [], ◌∷◌}
use net_calc.Words.{success}
use net_calc.Signals.Defs.{signal_action_setup}

both_caught : signal_action_setup 10 2 (λ signal. success) ≡ (success, 10 ∷ 2 ∷ [])
unfolding signal_action_setup
both_caught = refl
