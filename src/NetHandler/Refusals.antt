-- ===== src/NetHandler/Refusals.antt =====
-- What `parse_stream` answers to a file that it does not take.
use net_calc.Prelude.{
  ℕ, ◌^◌, ◌≤◌, ◌<◌, ◌≡◌, ◌≢◌, ◌∙◌, ◌⊎◌, inl, inr, refl, ap, arith, Bool, true, false, none, some,
  List, ◌∷◌, ◌++◌,
}
use net_calc.Prelude.{length, ◌==◌, if◌then◌else◌}
use net_calc.Prelude.Int.{pos, ltb_ℤ}
use net_calc.Words.{error, num}
use net_calc.FileIo.Stream.{Input, Output, piece, piece_left}
use net_calc.FileIo.Safe.{minus_one, ReadOutcome}
use net_calc.FileIo.Read.{safe_read-GivesUp}
use net_calc.FileIo.Write.{AllAccept, safe_write_all}
use net_calc.NetHandler.Packed.{FileHeader, NetHeader, header_bytes, header_of, net_header_bytes}
use net_calc.NetHandler.Messages.{
  HeaderCheck, check_header, judge_header, send_error_header, error_header, ignore_value,
}
use net_calc.NetHandler.Layout.{HeaderFits}
use net_calc.NetHandler.Stream.{ended, parse_stream, after_check, refuse_file}
use net_calc.NetHandler.Exchange.{check_lem, judged}
use net_calc.NetHandler.Answers.{value_short}

-- Only the error header is written.
abbrev pub Refuses : NetHeader → Input → Input → Output → Type 0
Refuses net_header input rest out =
    (out' : Output) × (parse_stream net_header input out ≡ ended error rest out')
    × (out'.written ≡ out.written ++ net_header_bytes error_header)

refusal :
    (net_header : NetHeader) (h : FileHeader) (input rest : Input) (out : Output)
    → AllAccept out.calls
    → check_header input ≡ some (error, h, rest)
    → Refuses net_header input rest out
unfolding parse_stream send_error_header
refusal net_header h input rest out accepting checked =
    let (out', wrote, all_written, _) =
      safe_write_all (net_header_bytes error_header) out accepting in
    (
      out',
      ap (after_check net_header out) checked ∙ ap (λ o. refuse_file rest (ignore_value o)) wrote,
      all_written,
    )

pub judged_bad :
    (h : FileHeader) (rest : Input)
    → (h.is_solved ≢ 0) ⊎ ((h.num_equations ≡ 0) ⊎ (2 ^ 63 ≤ h.num_equations))
    → judged h rest ≡ (error, h, rest)
unfolding judged
judged_bad h rest (inl already) = rw (not_zero h.is_solved already) refl
  where
    not_zero : (n : ℕ) → n ≢ 0 → (n == 0) ≡ false
    not_zero n p = ground arith
judged_bad h rest (inr bad) =
    rw (no_promise h.num_equations bad) (same (h.is_solved == 0) (error, h, rest))
  where
    no_promise : (n : ℕ) → (n ≡ 0) ⊎ (2 ^ 63 ≤ n) → ltb_ℤ (pos 0) (num 63 n) ≡ false
    no_promise n (inl p) = ground arith
    no_promise n (inr p) = ground arith

    same : (b : Bool) (c : HeaderCheck) → (if b then c else c) ≡ c
    same true c = refl
    same false c = refl

-- If the first piece begins with the bytes of a header that is marked as solved, or promises no
-- equation or a negative number of them, and no call of write fails, parse_stream returns ERROR,
-- leaves what follows the header to be read, and writes exactly the error header.
pub parse_stream-Refuses :
    (net_header : NetHeader) (h : FileHeader) (rest : List ℕ) (input : Input) (out : Output)
    → HeaderFits h
    → (h.is_solved ≢ 0) ⊎ ((h.num_equations ≡ 0) ⊎ (2 ^ 63 ≤ h.num_equations))
    → AllAccept out.calls
    → Refuses net_header (piece (header_bytes h ++ rest) ∷ input) (piece_left rest input) out
parse_stream-Refuses net_header h rest input out h_fits bad accepting =
    refusal net_header h (piece (header_bytes h ++ rest) ∷ input) (piece_left rest input) out
      accepting (check_lem h rest input h_fits ∙ ap some (judged_bad h (piece_left rest input) bad))

-- If the first piece is not empty and shorter than a file header and no call of write fails,
-- parse_stream returns ERROR and writes exactly the error header, even if the rest of the header
-- arrives later.
pub parse_stream-Refuses_short :
    (net_header : NetHeader) (bytes : List ℕ) (input : Input) (out : Output)
    → 0 < length bytes
    → length bytes < 27
    → AllAccept out.calls
    → (rest : Input) × Refuses net_header (piece bytes ∷ input) rest out
unfolding check_header
parse_stream-Refuses_short net_header bytes input out comes short accepting =
    let (r, read, value) = safe_read-GivesUp 27 bytes input comes short (omega arith) in
    (
      r.rest,
      refusal net_header (header_of r.buffer) (piece bytes ∷ input) r.rest out accepting (
          ap (λ o. elim o [ none ↦ none | some r ↦ some (judge_header r) ]) read
          ∙ ap some (short_judged r value)),
    )
  where
    short_judged :
        (r : ReadOutcome)
        → (r.value ≡ 0) ⊎ (r.value ≡ minus_one)
        → judge_header r ≡ (error, header_of r.buffer, r.rest)
    short_judged r value = rw (value_short 27 r.value (omega arith) (omega arith) value) refl
