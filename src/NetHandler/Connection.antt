-- ===== src/NetHandler/Connection.antt =====
-- `read_net_header` and `handle_new_connection` of 5_NetCalc/src/net_handler.c. The allocation of
-- the header succeeds.
use net_calc.Prelude.{ℕ, suc, Option, none, some, List, [], ◌∷◌, length, take, drop, replicate}
use net_calc.Prelude.{ltb, ◌==◌, if◌then◌else◌}
use net_calc.Words.{success, error, Outcome, returns, undefined}
use net_calc.FileIo.Stream.{Input, Output, ReadResult, at_end, failed, got, read}
use net_calc.NetHandler.Packed.{NetHeader, field_at, swap_bytes}
use net_calc.NetHandler.Messages.{net_header_size, send_error_header}
use net_calc.NetHandler.Stream.{Ending, ends_undefined, parse_stream, refuse_file}

abbrev pub max_filename_size : ℕ
max_filename_size = 24

abbrev pub net_header_of : List ℕ → NetHeader
net_header_of bytes = record {
  header_size = field_at 0 4 bytes;
  file_name_len = field_at 4 4 bytes;
  file_size = field_at 8 8 bytes;
  filename = take 32 (drop 16 bytes);
}

-- What `calloc` gives.
abbrev pub zero_header : NetHeader
zero_header = record {
  header_size = 0;
  file_name_len = 0;
  file_size = 0;
  filename = replicate 32 0;
}

abbrev one_more : Option ℕ → Option ℕ
one_more none = none
one_more (some n) = some (suc n)

-- The characters in front of the first zero. The name stands at the end of the allocation: without a
-- zero the function reads past it.
abbrev pub strlen : List ℕ → Option ℕ
strlen [] = none
strlen (c ∷ cs) = if c == 0 then some 0 else one_more (strlen cs)

-- A header with what has not been read.
abbrev pub Received : Type 0
Received = NetHeader × Input

abbrev judge_filename : Received → Option ℕ → Outcome Received
judge_filename received none = undefined
judge_filename received (some len) =
    if ltb max_filename_size len then returns error received else returns success received

-- The tests behind the loop.
unfoldable pub judge_net_header : NetHeader → Input → Outcome Received
judge_net_header header rest =
    if swap_bytes 4 header.header_size == net_header_size
    then (if ltb max_filename_size (swap_bytes 4 header.file_name_len)
        then returns error (header, rest)
        else judge_filename (header, rest) (strlen header.filename))
    else returns error (header, rest)

-- After the first call of `recv`. If it brings a part of the header, `buf += amount_recv` moves a
-- pointer to a whole structure past the allocation, where the next call writes or the tests read.
unfoldable pub after_recv : Input → ReadResult → Outcome Received
after_recv input at_end = judge_net_header zero_header input
after_recv input (failed is_dir rest) = judge_net_header zero_header rest
after_recv input (got bytes rest) =
    if length bytes == net_header_size
    then judge_net_header (net_header_of bytes) rest
    else undefined

unfoldable pub read_net_header : Input → Outcome Received
read_net_header input = after_recv input (read net_header_size input)

abbrev pub after_read_net_header : Output → Outcome Received → Ending
after_read_net_header out undefined = ends_undefined
after_read_net_header out (returns error (header, input)) =
    refuse_file input (send_error_header out)
after_read_net_header out (returns success (header, input)) = parse_stream header input out

-- The status is the last value of `err`; the function returns NULL.
unfoldable pub handle_new_connection : Input → Output → Ending
handle_new_connection input out = after_read_net_header out (read_net_header input)
