-- ===== src/FileMain/Started.antt =====
-- With what `main` calls `directory_parse`.
use net_calc.Prelude.{
  ℕ, subst, ◌≡◌, ◌≤◌, ◌<◌, ◌∙◌, refl, sym, ap, arith, Bool, Bool-cases, inl, inr, true, false, ◌||◌,
  Option, none, some, List, ltb, ◌==◌, if◌then◌else◌,
}
use net_calc.Prelude.Int.{ℤ}
use net_calc.Words.{Status, success, error}
use net_calc.CalcHandle.Opers.{CString}
use net_calc.SimpleCalc.Convert.{Number}
use net_calc.NetMain.Options.{Opt}
use net_calc.FileMain.Main.{
  min_args, max_args, check_directory, threads_loop, directory, Run, exits, parses, with_pool,
  if_open, after_signals, after_options, thread_main,
}

if_parses :
    (b : Bool) (r : Run) (threads : ℕ) (in_dir out_dir : CString)
    → (if b then r else exits) ≡ parses threads in_dir out_dir
    → (b ≡ true) × (r ≡ parses threads in_dir out_dir)
if_parses true r threads in_dir out_dir e = (refl, e)
if_parses false r threads in_dir out_dir e = cc

unless_parses :
    (b : Bool) (r : Run) (threads : ℕ) (in_dir out_dir : CString)
    → (if b then exits else r) ≡ parses threads in_dir out_dir
    → (b ≡ false) × (r ≡ parses threads in_dir out_dir)
unless_parses true r threads in_dir out_dir e = cc
unless_parses false r threads in_dir out_dir e = (refl, e)

module _ (resolves opens : CString → Bool) where
  abbrev pub IsOpen : CString → Type 0
  IsOpen name = (resolves name ≡ true) × (opens name ≡ true)

  if_open-parses :
      (name : CString) (r : Run) (threads : ℕ) (in_dir out_dir : CString)
      → if_open (check_directory resolves opens name) r ≡ parses threads in_dir out_dir
      → IsOpen name × (r ≡ parses threads in_dir out_dir)
  unfolding check_directory
  if_open-parses name r threads in_dir out_dir e = elim (Bool-cases (resolves name)) [
    | inl found ↦
        let (opened, rest) = if_parses (opens name) r threads in_dir out_dir (rw found at e) in
        ((found, opened), rest)
    | inr not_found ↦ absurd (left (rw not_found at e))
  ]
    where
      left : exits ≡ parses threads in_dir out_dir → ⊥
      left p = cc

module _ (resolves opens : CString → Bool) (has_pool : ℕ → Bool) where
  parsed_pool :
      (num_threads threads : ℕ) (a b in_dir out_dir : CString)
      → with_pool has_pool num_threads a b ≡ parses threads in_dir out_dir
      → (has_pool num_threads ≡ true) × (num_threads ≡ threads) × (a ≡ in_dir) × (b ≡ out_dir)
  parsed_pool num_threads threads a b in_dir out_dir e =
      let (made, same) =
        if_parses (has_pool num_threads) (parses num_threads a b) threads in_dir out_dir e in
      (made, cc, cc, cc)

  module _ (arguments : List CString) (threads : ℕ) (in_dir out_dir : CString) where
    abbrev Ready : Type 0
    Ready =
        (has_pool threads ≡ true)
        × IsOpen resolves opens in_dir
        × IsOpen resolves opens out_dir
        × (directory arguments 0 ≡ in_dir)
        × (directory arguments 1 ≡ out_dir)

    signals-Ready :
        (signals : Status) (n : ℕ)
        → after_signals resolves opens has_pool arguments n signals ≡ parses threads in_dir out_dir
        → (n ≡ threads) × Ready
    signals-Ready error n e = cc
    signals-Ready success n e =
        let a = directory arguments 0 in
        let b = directory arguments 1 in
        let (open_in, e1) =
          if_open-parses resolves opens a
            (if_open (check_directory resolves opens b) (with_pool has_pool n a b)) threads in_dir
            out_dir e in
        let (open_out, e2) =
          if_open-parses resolves opens b (with_pool has_pool n a b) threads in_dir out_dir e1 in
        let (made, same, in_same, out_same) = parsed_pool n threads a b in_dir out_dir e2 in
        (
          same,
          (
            ap has_pool (sym same) ∙ made,
            subst (IsOpen resolves opens) in_same open_in,
            subst (IsOpen resolves opens) out_same open_out,
            in_same,
            out_same,
          ),
        )

    options-Ready :
        (signals : Status) (o : Option ℕ)
        → after_options resolves opens has_pool arguments signals o ≡ parses threads in_dir out_dir
        → (0 < threads) × Ready
    options-Ready signals none e = cc
    options-Ready signals (some n) e =
        let (same, ready) = signals-Ready signals (if n == 0 then 4 else n) e in
        (omega (arith, some_threads n, same), ready)
      where
        some_threads : (k : ℕ) → 0 < (if k == 0 then 4 else k)
        some_threads k = ground arith

  -- If main of the file calculator calls directory_parse, then it has three or four arguments
  -- with its name, a pool has been created with at least one thread, the input and the output
  -- directory are the first two arguments that are no options, cut to the room for a path, and
  -- both names resolve and have been opened.
  pub thread_main_parses :
      (strtol : CString → ℕ → Number ℤ) (signals : Status) (argc : ℕ) (opts : List Opt)
      (arguments : List CString) (threads : ℕ) (in_dir out_dir : CString)
      → thread_main strtol resolves opens has_pool signals argc opts arguments
        ≡ parses threads in_dir out_dir
      → (min_args ≤ argc)
        × (argc ≤ max_args)
        × (0 < threads)
        × (has_pool threads ≡ true)
        × IsOpen resolves opens in_dir
        × IsOpen resolves opens out_dir
        × (directory arguments 0 ≡ in_dir)
        × (directory arguments 1 ≡ out_dir)
  unfolding thread_main
  thread_main_parses strtol signals argc opts arguments threads in_dir out_dir e =
      let (few, options) =
        unless_parses (ltb argc min_args || ltb max_args argc) _ threads in_dir out_dir e in
      let (some_thread, (made, open_in, open_out, in_same, out_same)) =
        options-Ready arguments threads in_dir out_dir signals (threads_loop strtol opts 0)
          options in
      (
        (counted argc few).0,
        (counted argc few).1,
        some_thread,
        made,
        open_in,
        open_out,
        in_same,
        out_same,
      )
    where
      counted :
          (n : ℕ) → (ltb n min_args || ltb max_args n) ≡ false → (min_args ≤ n) × (n ≤ max_args)
      counted n e = ground arith
