-- ===== src/Signals/Defs.antt =====
-- 4_ThreadCalc/src/signals.c. The numbers of the signals are <signal.h>'s, and what `sigaction`
-- returns for a signal is an argument.
use net_calc.Prelude.{ℕ, List, [], ◌∷◌, ◌==◌, if◌then◌else◌}
use net_calc.Words.{Status, success, error}

module _ (sigusr1 sigint : ℕ) where
  -- `signal_flag_g` behind the handler.
  unfoldable pub signal_handler : ℕ → ℕ → ℕ
  signal_handler signal signal_flag =
      let flagged = if sigusr1 == signal then 1 else signal_flag in
      if sigint == signal then 2 else flagged

  -- The flag after the signals that are raised one after the other.
  unfoldable pub raise_all : List ℕ → ℕ → ℕ
  raise_all [] signal_flag = signal_flag
  raise_all (signal ∷ signals) signal_flag = raise_all signals (signal_handler signal signal_flag)

  abbrev pub second_action : Status → Status × List ℕ
  second_action error = (error, sigusr1 ∷ [])
  second_action success = (success, sigusr1 ∷ sigint ∷ [])

  abbrev pub first_action : Status → Status → Status × List ℕ
  first_action error second = (error, [])
  first_action success second = second_action second

  -- The status, and the signals that the handler catches from then on.
  unfoldable pub signal_action_setup : (ℕ → Status) → Status × List ℕ
  signal_action_setup sigaction = first_action (sigaction sigusr1) (sigaction sigint)
