-- ===== src/FileIo/Write.antt =====
-- What `safe_write` writes, by how the calls of `write` go.
use net_calc.Prelude.{
  ℕ, zero, suc, ◌+◌, ◌<◌, ◌≡◌, ◌∙◌, refl, sym, ap, arith, some, List, [], ◌∷◌, ◌++◌, min,
}
use net_calc.Prelude.{take-append-drop, length-drop, length, take, drop, append-nil, append_assoc}
use net_calc.FileIo.Stream.{Output, Acceptance, accept, refuse}
use net_calc.FileIo.Safe.{write_loop, safe_write}

-- No call fails.
abbrev pub AllAccept : List Acceptance → Type 0
AllAccept [] = Unit {0}
AllAccept (accept n ∷ calls) = AllAccept calls
AllAccept (refuse ∷ calls) = ⊥

write_loop_all :
    (fuel total : ℕ) (left written : List ℕ) (calls : List Acceptance)
    → AllAccept calls
    → length calls + 1 < fuel
    → (out : Output) × (write_loop fuel total left (record { written = written; calls = calls })
        ≡ some (total + length left, out))
      × (out.written ≡ written ++ left)
      × AllAccept out.calls
unfolding write_loop
write_loop_all zero total left written calls a f = absurd (omega arith)
write_loop_all (suc fuel) total [] written calls a f =
    (record { written = written; calls = calls }, ground arith, sym (append-nil written), a)
write_loop_all (suc fuel) total (b ∷ left) written [] a f =
    (record { written = written ++ (b ∷ left); calls = [] }, refl, refl, tt)
write_loop_all (suc fuel) total (b ∷ left) written (refuse ∷ calls) a f = absurd a
write_loop_all (suc fuel) total (b ∷ left) written (accept n ∷ calls) a f =
    let (out, returned, all_written, accepting) =
      write_loop_all fuel (total + min n (length (b ∷ left))) (drop n (b ∷ left))
        (written ++ take n (b ∷ left)) calls a (omega arith) in
    (
      out,
      returned ∙ ap (λ v. some (v, out)) (count n (b ∷ left)),
      all_written
          ∙ append_assoc written (take n (b ∷ left)) (drop n (b ∷ left))
          ∙ ap (λ l. written ++ l) (take-append-drop n (b ∷ left)),
      accepting,
    )
  where
    count : (n : ℕ) (l : List ℕ) → total + min n (length l) + length (drop n l) ≡ total + length l
    count n l = omega (arith, length-drop n l)

-- If no call of write fails, safe_write writes the whole buffer behind what was written before,
-- however the calls split it, and returns its length.
pub safe_write_all :
    (bytes : List ℕ) (out : Output)
    → AllAccept out.calls
    → (out' : Output) × (safe_write bytes out ≡ some (length bytes, out'))
      × (out'.written ≡ out.written ++ bytes)
      × AllAccept out'.calls
unfolding safe_write
safe_write_all bytes out a =
    let (out', returned, all_written, accepting) =
      write_loop_all (length out.calls + 2) 0 bytes out.written out.calls a (omega arith) in
    (out', returned ∙ ap (λ v. some (v, out')) (omega arith), all_written, accepting)
