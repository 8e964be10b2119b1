-- ===== src/Signals/Stops.antt =====
-- The loop of `directory_parse` that waits for a signal, with the signals that are raised.
use net_calc.Prelude.{
  ℕ, ◌≡◌, refl, ◌∙◌, arith, Bool, false, ◌||◌, List, [], ◌∷◌, ◌==◌, if◌then◌else◌,
}
use net_calc.Signals.Defs.{signal_handler, raise_all}

module _ (sigusr1 sigint : ℕ) where
  abbrev pub is_caught : ℕ → Bool
  is_caught signal = sigusr1 == signal || sigint == signal

  abbrev pub any_caught : List ℕ → Bool
  any_caught [] = false
  any_caught (signal ∷ signals) = is_caught signal || any_caught signals

  -- Behind these signals the last that is caught decides.
  abbrev pub last_flag : List ℕ → ℕ → ℕ
  last_flag [] signal_flag = signal_flag
  last_flag (signal ∷ signals) signal_flag =
      let rest = last_flag signals signal_flag in
      if any_caught signals
      then rest
      else if sigint == signal
      then 2
      else if sigusr1 == signal
      then 1
      else signal_flag

  last_flag-other :
      (signals : List ℕ) (signal_flag other : ℕ)
      → last_flag signals other
        ≡ (if any_caught signals then last_flag signals signal_flag else other)
  last_flag-other [] signal_flag other = refl
  last_flag-other (signal ∷ signals) signal_flag other =
      ground (arith, last_flag-other signals signal_flag other)

  -- The flag behind any signals is 2 if SIGINT was the last that is caught, 1 if SIGUSR1 was, and
  -- what it was before if none was caught.
  pub raise_all-last_flag :
      (signals : List ℕ) (signal_flag : ℕ)
      → raise_all sigusr1 sigint signals signal_flag ≡ last_flag signals signal_flag
  unfolding raise_all signal_handler
  raise_all-last_flag [] signal_flag = refl
  raise_all-last_flag (signal ∷ signals) signal_flag =
      raise_all-last_flag signals (signal_handler sigusr1 sigint signal signal_flag)
      ∙ last_flag-other signals signal_flag (signal_handler sigusr1 sigint signal signal_flag)
      ∙ refl

  -- A caught signal is not masked by one that is raised later: the flag is 0 only if it was 0 and no
  -- signal was caught.
  pub raise_all-zero :
      (signals : List ℕ) (signal_flag : ℕ)
      → (raise_all sigusr1 sigint signals signal_flag == 0)
        ≡ (if any_caught signals then false else signal_flag == 0)
  unfolding raise_all signal_handler
  raise_all-zero [] signal_flag = refl
  raise_all-zero (signal ∷ signals) signal_flag =
      raise_all-zero signals (signal_handler sigusr1 sigint signal signal_flag) ∙ ground arith

  -- The flag that each round of the loop reads: `rounds` are the signals raised before each look.
  abbrev pub flags_read : List (List ℕ) → ℕ → List ℕ
  flags_read [] signal_flag = []
  flags_read (signals ∷ rounds) signal_flag =
      raise_all sigusr1 sigint signals signal_flag
      ∷ flags_read rounds (raise_all sigusr1 sigint signals signal_flag)

  abbrev pub ever_caught : List (List ℕ) → Bool
  ever_caught [] = false
  ever_caught (signals ∷ rounds) = any_caught signals || ever_caught rounds
