-- ===== src/FileIo/Tests.antt =====
-- Runs of the reads and writes, and the theorems at concrete data.
use net_calc.Prelude.{◌^◌, ◌≡◌, ◌≢◌, ◌⊎◌, refl, arith, some, [], ◌∷◌}
use net_calc.FileIo.Stream.{piece, accept, refuse}
use net_calc.FileIo.Safe.{
  ReadOutcome, safe_read, goes_on, read_loop, safe_write, write_loop, minus_one,
}
use net_calc.FileIo.Read.{safe_read_short}

-- Four bytes in two pieces of two: the third call asks for none, and the read comes to 0.
split_read :
    safe_read 4 (piece (1 ∷ 2 ∷ []) ∷ piece (3 ∷ 4 ∷ []) ∷ [])
    ≡ some (record { value = 0; buffer = 1 ∷ 2 ∷ 3 ∷ 4 ∷ []; rest = [] })
unfolding safe_read goes_on read_loop
split_read = refl

-- For a buffer of 2^31 bytes the loop does not begin.
cut_read :
    safe_read (2 ^ 31) (piece (1 ∷ 2 ∷ []) ∷ [])
    ≡ some (record { value = 0; buffer = []; rest = piece (1 ∷ 2 ∷ []) ∷ [] })
unfolding safe_read goes_on
cut_read = refl

refused_write :
    safe_write (1 ∷ 2 ∷ []) (record { written = []; calls = accept 1 ∷ refuse ∷ [] })
    ≡ some (minus_one, record { written = 1 ∷ []; calls = [] })
unfolding safe_write write_loop
refused_write = refl

safe_read_short_example :
    (r : ReadOutcome) × (safe_read 4 (piece (1 ∷ 2 ∷ []) ∷ piece (3 ∷ 4 ∷ []) ∷ []) ≡ some r)
    × ((r.value ≡ 0) ⊎ (r.value ≡ minus_one))
    × (r.value ≢ 4)
safe_read_short_example =
    safe_read_short 4 (1 ∷ 2 ∷ []) (piece (3 ∷ 4 ∷ []) ∷ []) (omega arith) (omega arith)
      (omega arith)
