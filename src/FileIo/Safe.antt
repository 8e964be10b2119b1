-- ===== src/FileIo/Safe.antt =====
-- `safe_read`, `safe_write` and `safe_close` of 0_Common/src/file_io.c. Buffers are not NULL (both
-- return 0 at once for NULL), and `len` is at most SSIZE_MAX, beyond which POSIX leaves open what
-- `read` does. The loops run on fuel; `none` is fuel that ran out.
use net_calc.Prelude.{
  ℕ, zero, suc, ◌+◌, ◌-◌, ◌%◌, ◌^◌, Bool, true, false, Option, none, some, List, [], ◌∷◌, ◌++◌,
}
use net_calc.Prelude.{length, take, drop, ltb, if◌then◌else◌, min}
use net_calc.Prelude.Int.{pos, ltb_ℤ}
use net_calc.Words.{num}
use net_calc.FileIo.Stream.{Input, ReadResult, at_end, failed, got, read, Output, accept, refuse}

-- -1 as a size_t
abbrev pub minus_one : ℕ
minus_one = 2 ^ 64 - 1

-- What `safe_read` leaves: its value, the bytes in the buffer, and what has not been read.
pub record ReadOutcome : Type 0 where
  pub value : ℕ
  pub buffer : List ℕ
  pub rest : Input

-- The test of the loop. `(int)len` keeps the lowest 32 bits, so that it is below 0 or smaller than
-- `len` for a buffer of 2^31 bytes or more.
unfoldable pub goes_on : ℕ → ℕ → Bool
goes_on bytes_read len = ltb_ℤ (pos bytes_read) (num 31 (len % 2 ^ 32))

-- One round after the call of `read`; `continue` is the loop's next round. It goes on if the last
-- call, and not all calls together, brought fewer bytes than `(int)len`.
abbrev pub after_read :
    (ℕ → List ℕ → Input → Option ReadOutcome)
    → ℕ
    → ℕ
    → List ℕ
    → Input
    → ReadResult
    → Option ReadOutcome
after_read continue len total buffer input at_end =
    some (record { value = 0; buffer = buffer; rest = input })
after_read continue len total buffer input (failed is_dir rest) =
    some (record { value = if is_dir then 0 else minus_one; buffer = buffer; rest = rest })
after_read continue len total buffer input (got bytes rest) = elim (goes_on (length bytes) len) [
  | true ↦ continue (total + length bytes) (buffer ++ bytes) rest
  | false ↦ some (record { value = total + length bytes; buffer = buffer ++ bytes; rest = rest })
]

-- The loop of `safe_read`, with `total` bytes read into `buffer`.
unfoldable pub read_loop : ℕ → ℕ → ℕ → List ℕ → Input → Option ReadOutcome
read_loop zero len total buffer input = none
read_loop (suc fuel) len total buffer input =
    after_read (λ t b i. read_loop fuel len t b i) len total buffer input (read (len - total) input)

unfoldable pub safe_read : ℕ → Input → Option ReadOutcome
safe_read len input =
    let loop = read_loop (suc (suc len)) len 0 [] input in
    if goes_on 0 len then loop else some (record { value = 0; buffer = []; rest = input })

-- The value of `safe_write` and the descriptor after it.
abbrev pub WriteOutcome : Type 0
WriteOutcome = ℕ × Output

-- One call of `write` and the rest of the loop of `safe_write`, with `left` still to be written.
unfoldable pub write_loop : ℕ → ℕ → List ℕ → Output → Option WriteOutcome
write_loop zero total left out = none
write_loop (suc fuel) total [] out = some (total, out)
write_loop (suc fuel) total (b ∷ left) out = elim (out.calls) [
  | [] ↦ some (total + length (b ∷ left), record out { written = out.written ++ (b ∷ left) })
  | c ∷ calls ↦ elim c [
    | refuse ↦ some (minus_one, record out { calls = calls })
    | accept n ↦
        write_loop fuel (total + min n (length (b ∷ left))) (drop n (b ∷ left))
          (record { written = out.written ++ take n (b ∷ left); calls = calls })
  ]
]

unfoldable pub safe_write : List ℕ → Output → Option WriteOutcome
safe_write bytes out = write_loop (length out.calls + 2) 0 bytes out

-- Returns -1 without a call for the three standard descriptors, else what `close` returns.
unfoldable pub safe_close : ℕ → Bool → Bool
safe_close file_d closed = if ltb 2 file_d then closed else false
