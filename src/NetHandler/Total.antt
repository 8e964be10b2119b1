-- ===== src/NetHandler/Total.antt =====
-- Every connection ends, whatever arrives and however the writes go.
use net_calc.Prelude.{
  arith, ℕ, zero, suc, ◌+◌, ◌*◌, ◌≢◌, sym, subst, Bool, true, false, Option, some, none,
}
use net_calc.Prelude.{◌==◌, if◌then◌else◌}
use net_calc.Prelude.Int.{pos, pos_part}
use net_calc.Words.{Status, success, error, Outcome, returns, undefined, num, fits}
use net_calc.FileIo.Stream.{Input, Output}
use net_calc.FileIo.Safe.{ReadOutcome, safe_read}
use net_calc.FileIo.Total.{IsSome, safe_read-IsSome, safe_write-IsSome}
use net_calc.CalcHandle.Defs.{Calc}
use net_calc.CalcHandle.Solve.{evaluate}
use net_calc.NetHandler.Packed.{Equation, equation_of, FileHeader, NetHeader}
use net_calc.NetHandler.Messages
use net_calc.NetHandler.Stream
use net_calc.NetHandler.Stream.{Ending, ended, ends_undefined, out_of_fuel}
use net_calc.NetHandler.Connection.{
  Received, after_read_net_header, read_net_header, handle_new_connection,
}

-- No loop runs out of fuel.
abbrev pub Finishes : Ending → Type 0
Finishes (ended err input out) = Unit {0}
Finishes ends_undefined = Unit {0}
Finishes out_of_fuel = ⊥

pub write_case : (b : Bool) (x y : Ending) → Finishes x → Finishes y → Finishes (if b then x else y)
write_case true x y p q = p
write_case false x y p q = q

-- What is done with a value that is there finishes, if it does for every value.
pub on_some :
    {A : Type 0} (f : Option A → Ending) (o : Option A)
    → IsSome o
    → ((a : A) → Finishes (f (some a)))
    → Finishes (f o)
on_some f o (a, e) h = subst (λ q. Finishes (f q)) (sym e) (h a)

module _ (go : Status → Input → Output → Ending)
    (go_finishes : (e : Status) (i : Input) (o : Output) → Finishes (go e i o)) where
  solve-Finishes :
      (k : ℕ) (equation : Equation) (rest : Input) (out : Output) (o : Outcome (Option Calc))
      → Finishes (Stream.after_solve go k equation rest out o)
  unfolding Messages.write_stream
  solve-Finishes k equation rest out undefined = tt
  solve-Finishes k equation rest out (returns error p_calc) = tt
  solve-Finishes k equation rest out (returns success none) = tt
  solve-Finishes k equation rest out (returns success (some calc)) =
      write_case (k == 2147483647) ends_undefined _ tt (
        on_some (Stream.after_write go k rest) _ (safe_write-IsSome _ out) (λ v.
          write_case (v.0 == 0) (ended success rest v.1) (go success rest v.1) tt
            (go_finishes success rest v.1)))

  read-Finishes :
      (k : ℕ) (err : Status) (out : Output) (r : ReadOutcome)
      → Finishes (Stream.after_read go k err out (some r))
  read-Finishes k err out r =
      write_case (r.value == 32) _ (ended err r.rest out)
        (solve-Finishes k (equation_of r.buffer) r.rest out (
          evaluate 63 (equation_of r.buffer).oper (equation_of r.buffer).num1
            (equation_of r.buffer).num2))
        tt

loop-Finishes :
    (left k : ℕ) (err : Status) (input : Input) (out : Output)
    → Finishes (Stream.equations_loop left k err input out)
unfolding Stream.equations_loop
loop-Finishes zero k err input out = tt
loop-Finishes (suc left) k err input out =
    on_some (Stream.after_read go k err out) (safe_read 32 input)
      (safe_read-IsSome 32 input (omega arith))
      (read-Finishes go (λ e i o. loop-Finishes left (k + 1) e i o) k err out)
  where
    go : Status → Input → Output → Ending
    go e i o = Stream.equations_loop left (k + 1) e i o

file_header-Finishes :
    (n : ℕ) (input : Input) (o : Option (ℕ × Output))
    → IsSome o
    → Finishes (Stream.after_file_header n input (Messages.ignore_value o))
file_header-Finishes n input o there =
    on_some (λ q. Stream.after_file_header n input (Messages.ignore_value q)) o there
      (λ v. loop-Finishes n 0 success input v.1)

answer-Finishes :
    (header : FileHeader) (n : ℕ) (input : Input) (o : Option (ℕ × Output))
    → IsSome o
    → Finishes (Stream.after_net_header header n input (Messages.ignore_value o))
unfolding Messages.write_file_header
answer-Finishes header n input o there =
    on_some (λ q. Stream.after_net_header header n input (Messages.ignore_value q)) o there
      (λ v. file_header-Finishes n input _ (safe_write-IsSome _ v.1))

refuse-Finishes :
    (input : Input) (out : Output)
    → Finishes (Stream.refuse_file input (Messages.send_error_header out))
unfolding Messages.send_error_header
refuse-Finishes input out =
    on_some (λ q. Stream.refuse_file input (Messages.ignore_value q)) _ (safe_write-IsSome _ out)
      (λ v. tt)

check-Finishes :
    (net_header : NetHeader) (out : Output) (c : Messages.HeaderCheck)
    → Finishes (Stream.after_check net_header out (some c))
unfolding Messages.write_net_header
check-Finishes net_header out (error, header, input) = refuse-Finishes input out
check-Finishes net_header out (success, header, input) =
    write_case (fits 63 (pos (75 + 14 * pos_part (num 63 header.num_equations)))) _ ends_undefined
      (answer-Finishes header (pos_part (num 63 header.num_equations)) input _
        (safe_write-IsSome _ out))
      tt

parse_stream-Finishes :
    (net_header : NetHeader) (input : Input) (out : Output)
    → Finishes (Stream.parse_stream net_header input out)
unfolding Stream.parse_stream Messages.check_header
parse_stream-Finishes net_header input out =
    on_some
      (λ q.
        Stream.after_check net_header out
          (elim q [ none ↦ none | some r ↦ some (Messages.judge_header r) ]))
      (safe_read 27 input) (safe_read-IsSome 27 input (omega arith))
      (λ r. check-Finishes net_header out (Messages.judge_header r))

connection-Finishes : (out : Output) (o : Outcome Received) → Finishes (after_read_net_header out o)
connection-Finishes out undefined = tt
connection-Finishes out (returns error (header, input)) = refuse-Finishes input out
connection-Finishes out (returns success (header, input)) = parse_stream-Finishes header input out

pub ne_fuel : (e : Ending) → Finishes e → e ≢ out_of_fuel
ne_fuel e finishes same = subst Finishes same finishes

-- Whatever the reads bring and the writes accept, handle_new_connection comes to an end or to
-- undefined behaviour: the fuel of its reads and writes never runs out.
pub handle_new_connection_total :
    (input : Input) (out : Output) → handle_new_connection input out ≢ out_of_fuel
unfolding handle_new_connection
handle_new_connection_total input out = ne_fuel _ (connection-Finishes out (read_net_header input))
