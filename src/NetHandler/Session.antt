-- ===== src/NetHandler/Session.antt =====
-- Whole connections, from the network header to the last byte of the answer.
use net_calc.Prelude.{
  ℕ, ◌^◌, ◌≤◌, ◌<◌, ◌≡◌, ◌≢◌, ◌∙◌, ◌⊎◌, inl, inr, refl, sym, ap, arith, false, true, some, List, [],
  ◌∷◌, ◌++◌,
}
use net_calc.Prelude.{Bool, length, take, ltb, ◌==◌, if◌then◌else◌, append-nil}
use net_calc.Words.{success, error, returns, undefined}
use net_calc.FileIo.Stream.{Input, Output, piece, piece_left, got, read}
use net_calc.FileIo.Read.{read_whole}
use net_calc.FileIo.Write.{AllAccept, safe_write_all}
use net_calc.CalcHandle.Defs.{Calc}
use net_calc.NetHandler.Packed.{
  swap_bytes, Equation, FileHeader, NetHeader, header_bytes, net_header_bytes,
}
use net_calc.NetHandler.Messages.{error_header, send_error_header, ignore_value}
use net_calc.NetHandler.Layout.{number_of-bytes_of}
use net_calc.NetHandler.Stream.{ended, refuse_file}
use net_calc.NetHandler.Loop.{SolvedBy, file_bytes}
use net_calc.NetHandler.Exchange.{Accepted}
use net_calc.NetHandler.Answers.{answer, parse_stream_answers}
use net_calc.NetHandler.Connection.{
  net_header_of, strlen, judge_net_header, after_recv, read_net_header, after_read_net_header,
  handle_new_connection,
}

abbrev pub NetHeaderFits : NetHeader → Type 0
NetHeaderFits h =
    (h.header_size < 256 ^ 4)
    × (h.file_name_len < 256 ^ 4)
    × (h.file_size < 256 ^ 8)
    × (length h.filename ≡ 32)

take_all : (xs : List ℕ) → take (length xs) xs ≡ xs
take_all [] = refl
take_all (x ∷ xs) = ap (λ t. x ∷ t) (take_all xs)

-- For a network header whose fields fit their sizes and whose name field has 32 characters, the
-- structure read from its 48 bytes is the header.
pub net_header_of-net_header_bytes :
    (h : NetHeader) → NetHeaderFits h → net_header_of (net_header_bytes h) ≡ h
net_header_of-net_header_bytes h (a, b, c, len) = λ i. record {
  header_size = number_of-bytes_of 4 h.header_size a i;
  file_name_len = number_of-bytes_of 4 h.file_name_len b i;
  file_size = number_of-bytes_of 8 h.file_size c i;
  filename = (ap (λ n. take n h.filename) (sym len) ∙ take_all h.filename) i;
}

-- A call takes the bytes that it asks for from the piece that begins with them.
recv_whole :
    (size : ℕ) (bytes rest : List ℕ) (input : Input)
    → size ≡ length bytes
    → 0 < size
    → read size (piece (bytes ++ rest) ∷ input) ≡ got bytes (piece_left rest input)
recv_whole size [] rest input p q = absurd (omega arith)
recv_whole size (b ∷ bs) rest input p q =
    ap (λ n. read n (piece (b ∷ (bs ++ rest)) ∷ input)) p ∙ read_whole b bs rest input

is_size : (n : ℕ) → 48 ≡ n → (n == 48) ≡ true
is_size n p = ground arith

read_net_header_lem :
    (h : NetHeader) (rest : List ℕ) (input : Input)
    → NetHeaderFits h
    → read_net_header (piece (net_header_bytes h ++ rest) ∷ input)
      ≡ judge_net_header h (piece_left rest input)
unfolding read_net_header after_recv
read_net_header_lem h rest input h_fits =
    ap (after_recv (piece (net_header_bytes h ++ rest) ∷ input))
      (recv_whole 48 (net_header_bytes h) rest input whole (omega arith))
    ∙ ap
        (λ b.
          if b
          then judge_net_header (net_header_of (net_header_bytes h)) (piece_left rest input)
          else undefined)
        (is_size (length (net_header_bytes h)) whole)
    ∙ ap (λ q. judge_net_header q (piece_left rest input)) (net_header_of-net_header_bytes h h_fits)
  where
    whole : 48 ≡ length (net_header_bytes h)
    whole = omega (arith, h_fits.3)

-- What the code asks of a network header that it takes.
abbrev pub Welcome : NetHeader → Type 0
Welcome h =
    NetHeaderFits h
    × (swap_bytes 4 h.header_size ≡ 48)
    × (swap_bytes 4 h.file_name_len ≤ 24)
    × (len : ℕ) × (strlen h.filename ≡ some len)
    × (len ≤ 24)

not_ltb : (n : ℕ) → n ≤ 24 → ltb 24 n ≡ false
not_ltb n p = ground arith

judge-Welcome :
    (h : NetHeader) (rest : Input) → Welcome h → judge_net_header h rest ≡ returns success (h, rest)
unfolding judge_net_header
judge-Welcome h rest (_, size, name_size, len, name, name_len) =
    rw
      (
        is_size (swap_bytes 4 h.header_size) (sym size),
        not_ltb (swap_bytes 4 h.file_name_len) name_size,
        name,
        not_ltb len name_len,
      )
      refl

-- If no call of write fails, the first piece that arrives is a network header that the code
-- takes (its size is 48, its name's length and the characters in front of the first zero are at
-- most 24), and the second begins with an accepted file header and with as many equations as it
-- promises, fewer than 2 ^ 31, each of which is solved by the record beside it, then the
-- connection ends with SUCCESS, leaves what follows to be read, and exactly the network header
-- of the answer, the file header marked as solved and the solutions in the order of the
-- equations are written.
pub handle_new_connection_answers :
    (net_header : NetHeader) (h : FileHeader) (equations : List Equation) (calcs : List Calc)
    (rest : List ℕ) (input : Input) (out : Output)
    → Welcome net_header
    → Accepted h
    → h.num_equations ≡ length equations
    → length equations < 2 ^ 31
    → SolvedBy equations calcs
    → AllAccept out.calls
    → (out' : Output) × (handle_new_connection
          (piece (net_header_bytes net_header)
            ∷ piece (header_bytes h ++ (file_bytes equations ++ rest))
            ∷ input)
          out
        ≡ ended success (piece_left rest input) out')
      × (out'.written ≡ out.written ++ answer net_header h equations calcs)
unfolding handle_new_connection
handle_new_connection_answers net_header h equations calcs rest input out welcome accepted count
      below solves accepting =
    let (out', returned, wrote) =
      parse_stream_answers net_header h equations calcs out accepted solves below accepting rest
        input count in
    (
      out',
      ap (λ bytes. handle_new_connection (piece bytes ∷ file) out)
            (sym (append-nil (net_header_bytes net_header)))
          ∙ ap (after_read_net_header out) (
              read_net_header_lem net_header [] file welcome.0
              ∙ judge-Welcome net_header file welcome)
          ∙ returned,
      wrote,
    )
  where
    file : Input
    file = piece (header_bytes h ++ (file_bytes equations ++ rest)) ∷ input

-- A network header that the code does not take.
abbrev pub Unwelcome : NetHeader → Type 0
Unwelcome h =
    (swap_bytes 4 h.header_size ≢ 48)
    ⊎ ((24 < swap_bytes 4 h.file_name_len)
        ⊎ ((len : ℕ) × (strlen h.filename ≡ some len) × (24 < len)))

when_true : {A : Type 0} (b : Bool) (x y : A) → b ≡ true → (if b then x else y) ≡ x
when_true b x y p = ap (λ c. if c then x else y) p

when_same : {A : Type 0} (b : Bool) (x y : A) → x ≡ y → (if b then x else y) ≡ y
when_same true x y p = p
when_same false x y p = refl

lt-ltb : (n : ℕ) → 24 < n → ltb 24 n ≡ true
lt-ltb n p = ground arith

judge-Unwelcome :
    (h : NetHeader) (rest : Input) → Unwelcome h → judge_net_header h rest ≡ returns error (h, rest)
unfolding judge_net_header
judge-Unwelcome h rest (inl other) = rw (not_size (swap_bytes 4 h.header_size) other) refl
  where
    not_size : (n : ℕ) → n ≢ 48 → (n == 48) ≡ false
    not_size n p = ground arith
judge-Unwelcome h rest (inr (inl long)) =
    when_same (swap_bytes 4 h.header_size == 48) _ (returns error (h, rest)) (
      when_true (ltb 24 (swap_bytes 4 h.file_name_len)) (returns error (h, rest)) _
        (lt-ltb (swap_bytes 4 h.file_name_len) long))
judge-Unwelcome h rest (inr (inr (len, name, long))) =
    when_same (swap_bytes 4 h.header_size == 48) _ (returns error (h, rest)) (
      rw (name, lt-ltb len long)
        (when_same (ltb 24 (swap_bytes 4 h.file_name_len)) (returns error (h, rest))
          (returns error (h, rest)) refl))

-- If no call of write fails and the first piece begins with the bytes of a network header whose
-- size is not 48, or whose name's length is above 24, or whose name has more than 24 characters
-- in front of its first zero, the connection ends with ERROR, leaves what follows to be read,
-- and exactly the error header is written.
pub handle_new_connection-Unwelcome :
    (h : NetHeader) (rest : List ℕ) (input : Input) (out : Output)
    → NetHeaderFits h
    → Unwelcome h
    → AllAccept out.calls
    → (out' : Output) × (handle_new_connection (piece (net_header_bytes h ++ rest) ∷ input) out
        ≡ ended error (piece_left rest input) out')
      × (out'.written ≡ out.written ++ net_header_bytes error_header)
unfolding handle_new_connection send_error_header
handle_new_connection-Unwelcome h rest input out h_fits bad accepting =
    let (out', wrote, all_written, _) =
      safe_write_all (net_header_bytes error_header) out accepting in
    (
      out',
      ap (after_read_net_header out) (
            read_net_header_lem h rest input h_fits ∙ judge-Unwelcome h (piece_left rest input) bad)
          ∙ ap (λ o. refuse_file (piece_left rest input) (ignore_value o)) wrote,
      all_written,
    )
