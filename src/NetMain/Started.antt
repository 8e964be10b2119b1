-- ===== src/NetMain/Started.antt =====
-- With which port and how many threads the listener is started.
use net_calc.Prelude.{
  ℕ, Bool-cases, suc, ◌≡◌, ◌<◌, ◌⊎◌, ◌∙◌, ◌≤◌, inl, inr, refl, sym, ap, arith, Bool, true, false,
  ◌||◌, not, some, List, [], ◌∷◌, take, get_elem?, if◌then◌else◌, ◌==◌,
}
use net_calc.Prelude.Int.{ℤ, pos, negsuc, ltb_ℤ}
use net_calc.Words.{Status, success, error, of_num}
use net_calc.CalcHandle.Opers.{CString}
use net_calc.SimpleCalc.Convert.{Number, base}
use net_calc.MathFuncs.Widths.{sign64}
use net_calc.NetMain.Options.{
  Opt, n_option, p_option, help, unknown, missing, Settings, Choice, chosen, leaves, is_empty,
  set_threads, set_port, converted, options_loop, default_port, with_defaults, judge_options, exits,
  serves, start, first_settings, net_main,
}

-- The port is as before, or the first five characters of an option with a number of a port.
module _ (strtol : CString → ℕ → Number ℤ) where
  abbrev pub IsPort : CString → Type 0
  IsPort text =
      (n : ℕ) × ((strtol text base).value ≡ pos n)
      × (2000 ≤ n)
      × (n ≤ 65535)
      × (converted strtol text ≡ success)

  abbrev pub PortFrom : CString → List Opt → CString → Type 0
  PortFrom before opts port =
      (port ≡ before)
      ⊎ ((i : ℕ) × (text : CString) × (get_elem? opts i ≡ some (p_option text))
          × IsPort text
          × (port ≡ take 5 text))

  in_range :
      (v : ℤ)
      → (ltb_ℤ v (pos 2000) || ltb_ℤ (pos 65535) v) ≡ false
      → (n : ℕ) × (v ≡ pos n) × (2000 ≤ n) × (n ≤ 65535)
  in_range (pos n) e = (n, refl, ground arith, ground arith)
  in_range (negsuc n) e = absurd (ground arith)

  if_chosen :
      (b : Bool) (err : Status) (c : Choice) (s : Settings)
      → (if b then leaves err else c) ≡ chosen s
      → (b ≡ false) × (c ≡ chosen s)
  if_chosen true err c s e = cc
  if_chosen false err c s e = (refl, e)

  set_port_chosen :
      (go_on : Settings → Choice) (settings : Settings) (text : CString) (v : ℤ) (st : Status)
      (s : Settings)
      → set_port go_on settings text v st ≡ chosen s
      → (st ≡ success)
        × ((ltb_ℤ v (pos 2000) || ltb_ℤ (pos 65535) v) ≡ false)
        × (go_on (record settings { err = success; port = take 5 text }) ≡ chosen s)
  set_port_chosen go_on settings text v error s e = cc
  set_port_chosen go_on settings text v success s e =
      let (within, goes) = if_chosen (ltb_ℤ v (pos 2000) || ltb_ℤ (pos 65535) v) success _ s e in
      (refl, within, goes)

  set_threads_chosen :
      (go_on : Settings → Choice) (settings : Settings) (v : ℤ) (st : Status) (s : Settings)
      → set_threads go_on settings v st ≡ chosen s
      → go_on (record settings { err = success; num_threads = of_num sign64 v }) ≡ chosen s
  set_threads_chosen go_on settings v error s e = cc
  set_threads_chosen go_on settings v success s e = e

  later_option :
      (before : CString) (opt : Opt) (opts : List Opt) (port : CString)
      → PortFrom before opts port
      → PortFrom before (opt ∷ opts) port
  later_option before opt opts port (inl e) = inl e
  later_option before opt opts port (inr (i, text, at_i, is_port, e)) =
      inr (suc i, text, at_i, is_port, e)

  from_this :
      (before text : CString) (opts : List Opt) (port : CString)
      → IsPort text
      → PortFrom (take 5 text) opts port
      → PortFrom before (p_option text ∷ opts) port
  from_this before text opts port is_port (inl e) = inr (0, text, refl, is_port, e)
  from_this before text opts port is_port (inr (i, text', at_i, is_port', e)) =
      inr (suc i, text', at_i, is_port', e)

  if_set :
      (b : Bool) (c : Choice) (err : Status) (s : Settings)
      → (if b then c else leaves err) ≡ chosen s
      → c ≡ chosen s
  if_set true c err s e = e
  if_set false c err s e = cc

  options_loop-PortFrom :
      (opts : List Opt) (settings s : Settings)
      → options_loop strtol opts settings ≡ chosen s
      → PortFrom settings.port opts s.port
  unfolding options_loop
  options_loop-PortFrom [] settings s e =
      inl (ap {B = CString} (λ c. elim c [ chosen t ↦ t.port | leaves err ↦ s.port ]) (sym e))
  options_loop-PortFrom (n_option text ∷ opts) settings s e =
      later_option settings.port (n_option text) opts s.port (
        options_loop-PortFrom opts _ s (
          set_threads_chosen (λ t. options_loop strtol opts t) settings (strtol text base).value
            (converted strtol text) s e))
  options_loop-PortFrom (p_option text ∷ opts) settings s e =
      let go_on = λ (t : Settings). options_loop strtol opts t in
      let (converts, within, goes) =
        set_port_chosen go_on settings text (strtol text base).value (converted strtol text) s
          (if_set (is_empty settings.port) _ settings.err s e) in
      let (n, value, low, high) = in_range (strtol text base).value within in
      from_this settings.port text opts s.port (n, value, low, high, converts)
        (options_loop-PortFrom opts _ s goes)
  options_loop-PortFrom (help ∷ opts) settings s e = cc
  options_loop-PortFrom (unknown ∷ opts) settings s e = cc
  options_loop-PortFrom (missing ∷ opts) settings s e =
      later_option settings.port missing opts s.port (options_loop-PortFrom opts settings s e)

  some_threads : (k : ℕ) → 0 < (if k == 0 then 4 else k)
  some_threads k = ground arith

  port_or_default :
      (port : CString)
      → ((if is_empty port then default_port else port) ≡ default_port)
        ⊎ ((if is_empty port then default_port else port) ≡ port)
  port_or_default [] = inl refl
  port_or_default (c ∷ port) = inr refl

  judged :
      (optopt : ℕ) (argument_left : Bool) (c : Choice) (s : Settings)
      → judge_options optopt argument_left c ≡ chosen s
      → (t : Settings) × (c ≡ chosen t) × (with_defaults t ≡ s)
  judged optopt argument_left (leaves err) s e = cc
  judged optopt argument_left (chosen t) s e =
      let (_, rest) = if_chosen (not (optopt == 0)) t.err _ s e in
      let (_, done) = if_chosen argument_left t.err (chosen (with_defaults t)) s rest in
      (t, refl, inner done)
    where
      inner : {a b : Settings} → chosen a ≡ chosen b → a ≡ b
      inner p = cc

  started :
      (signals : Status) (has_pool : ℕ → Bool) (listener : CString → Status) (c : Choice)
      (threads : ℕ) (port : CString) (err : Status)
      → start signals has_pool listener c ≡ serves threads port err
      → (s : Settings) × (c ≡ chosen s)
        × (s.num_threads ≡ threads)
        × (s.port ≡ port)
        × (has_pool threads ≡ true)
  started signals has_pool listener (leaves e) threads port err q = absurd (cc)
  started error has_pool listener (chosen s) threads port err q = absurd (cc)
  started success has_pool listener (chosen s) threads port err q =
      elim (Bool-cases (has_pool s.num_threads)) [
        | inr none_made ↦ absurd (unserved (rw none_made at q))
        | inl made ↦
            let q' : serves s.num_threads s.port (listener s.port) ≡ serves threads port err =
              rw made at q in
            (s, refl, cc, cc, ap has_pool (sym (the_threads q')) ∙ made)
      ]
    where
      unserved : exits success ≡ serves threads port err → ⊥
      unserved p = cc

      the_threads :
          {a : ℕ} {b : CString} {c : Status} → serves a b c ≡ serves threads port err → a ≡ threads
      the_threads p = cc

  -- If main of the network calculator starts the listener, then with at least one thread, for
  -- which the pool has been created, and on the default port or on the first five characters of
  -- the text of one of its options -p, a text that strtol converts to a number from 2000 to
  -- 65535.
  pub net_main_serves :
      (opts : List Opt) (optopt : ℕ) (argument_left : Bool) (signals : Status) (has_pool : ℕ → Bool)
      (listener : CString → Status) (threads : ℕ) (port : CString) (err : Status)
      → net_main strtol opts optopt argument_left signals has_pool listener
        ≡ serves threads port err
      → (0 < threads) × (has_pool threads ≡ true) × PortFrom default_port opts port
  unfolding net_main
  net_main_serves opts optopt argument_left signals has_pool listener threads port err e =
      let (s, judged_to, threads_eq, port_eq, pool) =
        started signals has_pool listener _ threads port err e in
      let (t, looped, defaults) = judged optopt argument_left _ s judged_to in
      (
        omega (
          arith,
          some_threads t.num_threads,
          ap (λ (u : Settings). u.num_threads) defaults,
          threads_eq,
        ),
        pool,
        served_port t.port (options_loop-PortFrom opts first_settings t looped)
            (ap (λ (u : Settings). u.port) defaults ∙ port_eq),
      )
    where
      served_port :
          (before : CString)
          → PortFrom [] opts before
          → (if is_empty before then default_port else before) ≡ port
          → PortFrom default_port opts port
      served_port before (inl empty) e' =
          inl (sym e' ∙ ap (λ p. if is_empty p then default_port else p) empty)
      served_port before (inr (i, text, at_i, is_port, same)) e' = elim (port_or_default before) [
        | inl default ↦ inl (sym e' ∙ default)
        | inr kept ↦ inr (i, text, at_i, is_port, sym e' ∙ kept ∙ same)
      ]
