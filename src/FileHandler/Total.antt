-- ===== src/FileHandler/Total.antt =====
-- The loop of `process_equations` ends with the data, whatever they are.
use net_calc.Prelude.{
  ℕ, zero, suc, ◌≤◌, ◌<◌, ◌≡◌, ◌≢◌, refl, sym, subst, arith, Bool, true, false, Option, some, none,
}
use net_calc.Prelude.{◌==◌, if◌then◌else◌}
use net_calc.Prelude.Int.{pos, pos_part, ltb_ℤ}
use net_calc.Words.{Status, success, error, Outcome, returns, undefined}
use net_calc.FileIo.Stream.{Input, Output}
use net_calc.FileIo.Safe.{ReadOutcome, safe_read, safe_close}
use net_calc.FileIo.Total.{weight, IsSome, Returned, safe_read_total, safe_write-IsSome}
use net_calc.CalcHandle.Defs.{Calc}
use net_calc.NetHandler.Packed.{Equation, equation_of}
use net_calc.NetHandler.Stream.{Ending, ended, ends_undefined, out_of_fuel}
use net_calc.NetHandler.Total.{Finishes, on_some, write_case, ne_fuel}
use net_calc.FileHandler.Process.{
  write_file, write_done, solve_done, read_done, process_loop, close_output, process_equations,
  ParseArgs, parse_file,
}

write_file-IsSome :
    (p_calc : Option Calc) (equation : Equation) (out : Output)
    → IsSome (write_file p_calc equation out)
unfolding write_file
write_file-IsSome none equation out = (_, refl)
write_file-IsSome (some calc) equation out = safe_write-IsSome _ out

module _ (go : Status → Input → Output → Ending) (rest : Input)
    (go_finishes : (e : Status) (o : Output) → Finishes (go e rest o)) where
  solve-Finishes :
      (equation : Equation) (out : Output) (o : Outcome (Option Calc))
      → Finishes (solve_done go equation rest out o)
  solve-Finishes equation out undefined = tt
  solve-Finishes equation out (returns error p_calc) = tt
  solve-Finishes equation out (returns success p_calc) =
      on_some (write_done go rest) _ (write_file-IsSome p_calc equation out) (λ v.
        write_case (v.0 == 0) (ended success rest v.1) (go success rest v.1) tt
          (go_finishes success v.1))

-- A read of a whole equation takes something.
shrinks :
    (before : ℕ) (r : ReadOutcome)
    → Returned 32 before r
    → (r.value == 32) ≡ true
    → weight r.rest < before
shrinks before r ret e = ground (arith, ret.value_cases)

test_case :
    (b : Bool) (x y : Ending) → (b ≡ true → Finishes x) → Finishes y → Finishes (if b then x else y)
test_case true x y p q = p refl
test_case false x y p q = q

read-Finishes :
    (fuel : ℕ) (err : Status) (input : Input) (out : Output)
    → weight input ≤ fuel
    → ((e : Status) (i : Input) (o : Output) → weight i < fuel → Finishes (process_loop fuel e i o))
    → Finishes (read_done (λ e i o. process_loop fuel e i o) err out (safe_read 32 input))
read-Finishes fuel err input out enough later =
    let (r, returned, ret) = safe_read_total 32 input (omega arith) in
    subst (λ o. Finishes (read_done go err out o)) (sym returned)
      (test_case (r.value == 32) _ (ended err r.rest out)
        (λ whole.
          solve-Finishes go r.rest
            (λ e o. later e r.rest o (omega (arith, shrinks (weight input) r ret whole)))
            (equation_of r.buffer) out _)
        tt)
  where
    go : Status → Input → Output → Ending
    go e i o = process_loop fuel e i o

process_loop-Finishes :
    (fuel : ℕ) (err : Status) (input : Input) (out : Output)
    → weight input < fuel
    → Finishes (process_loop fuel err input out)
unfolding process_loop
process_loop-Finishes zero err input out f = absurd (omega arith)
process_loop-Finishes (suc fuel) err input out f =
    read-Finishes fuel err input out (omega arith)
      (λ e i o less. process_loop-Finishes fuel e i o less)

close-Finishes : (closed : Bool) (e : Ending) → Finishes e → Finishes (close_output closed e)
close-Finishes closed (ended err input out) p = tt
close-Finishes closed ends_undefined p = tt
close-Finishes closed out_of_fuel p = p

-- For any arguments, whatever the reads bring and the writes accept, parse_file comes to an end
-- or to undefined behaviour: its loop, which does not count the equations, stops within the fuel
-- of one round more than there are bytes and calls of read to come.
pub parse_file_total :
    (args : Option ParseArgs) (closed : Bool) (input : Input) (out : Output)
    → parse_file args closed input out ≢ out_of_fuel
unfolding parse_file process_equations
parse_file_total none closed input out = ne_fuel (ended error input out) tt
parse_file_total (some args) closed input out = ne_fuel _ (
    write_case (ltb_ℤ args.in_file_stream (pos 2)) (ended error input out) _ tt (
      write_case (ltb_ℤ args.out_file_stream (pos 2)) (ended error input out) _ tt (
        close-Finishes (safe_close (pos_part args.out_file_stream) closed) _ (
          write_case (ltb_ℤ (pos 0) args.num_equations) _ (ended error input out)
            (process_loop-Finishes (suc (weight input)) error input out (omega arith)) tt))))
