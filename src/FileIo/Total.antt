-- ===== src/FileIo/Total.antt =====
-- `safe_read` and `safe_write` always return, and stay within their buffers.
use net_calc.Prelude.{
  ℕ, zero, suc, ◌+◌, ◌-◌, ◌^◌, ◌≤◌, ◌<◌, ◌≡◌, ◌⊎◌, inl, inr, refl, sym, ap, ◌∙◌, arith, true, false,
  Option, some, List, [], ◌∷◌, ◌++◌,
}
use net_calc.Prelude.{
  append-nil, take-append-drop, length-drop, length-take, append_assoc, length, take, drop, ltb,
  Bool-cases, length-append, min,
}
use net_calc.FileIo.Stream.{
  Arrival, Input, piece, failure, ReadResult, at_end, failed, got, read, Output, Acceptance, accept,
  refuse,
}
use net_calc.FileIo.Safe.{
  ReadOutcome, after_read, read_loop, safe_read, goes_on, write_loop, safe_write, minus_one,
  WriteOutcome,
}

-- What there is to read: bytes, and calls that bring none.
abbrev pub arrival_weight : Arrival → ℕ
arrival_weight (piece bytes) = suc (length bytes)
arrival_weight (failure is_dir) = 1

abbrev pub weight : Input → ℕ
weight [] = 0
weight (a ∷ input) = arrival_weight a + weight input

-- What one call of `read` for `n` bytes leaves.
abbrev Sound : ℕ → Input → ReadResult → Type 0
Sound n input at_end = Unit {0}
Sound n input (failed is_dir rest) = weight rest ≤ weight input
Sound n input (got bytes rest) =
    (length bytes ≤ n) × (0 < length bytes) × (weight rest + length bytes ≤ weight input)

read-Sound : (n : ℕ) (input : Input) → Sound n input (read n input)
read-Sound zero input = tt
read-Sound (suc n) [] = tt
read-Sound (suc n) (failure is_dir ∷ input) = omega arith
read-Sound (suc n) (piece [] ∷ input) = tt
read-Sound (suc n) (piece (b ∷ bs) ∷ input) = elim (Bool-cases (ltb n (length bs))) [
  | inl more ↦ rw more (omega (arith, length-take n bs, length-drop n bs))
  | inr all ↦ rw all (ground arith)
]

-- What `safe_read` for `len` bytes leaves, of `before` to read and buffered.
pub record Returned (len before : ℕ) (r : ReadOutcome) : Type 0 where
  pub within : length r.buffer ≤ len
  pub value_cases : (r.value ≡ length r.buffer) ⊎ ((r.value ≡ 0) ⊎ (r.value ≡ minus_one))
  pub consumed : weight r.rest + length r.buffer ≤ before

abbrev Returns : ℕ → ℕ → Option ReadOutcome → Type 0
Returns len before o = (r : ReadOutcome) × (o ≡ some r) × Returned len before r

after_read-Returns :
    (continue : ℕ → List ℕ → Input → Option ReadOutcome) (len before : ℕ) (buffer : List ℕ)
    (input : Input) (r : ReadResult)
    → length buffer ≤ len
    → weight input + length buffer ≤ before
    → Sound (len - length buffer) input r
    → ((t : ℕ) (b : List ℕ) (i : Input)
        → t ≡ length b
        → length buffer < t
        → t ≤ len
        → weight i + t ≤ before
        → Returns len before (continue t b i))
    → Returns len before (after_read continue len (length buffer) buffer input r)
after_read-Returns continue len before buffer input at_end p q s ih =
    (_, refl, record { within = p; value_cases = inr (inl refl); consumed = q })
after_read-Returns continue len before buffer input (failed true rest) p q s ih =
    (_, refl, record { within = p; value_cases = inr (inl refl); consumed = omega arith })
after_read-Returns continue len before buffer input (failed false rest) p q s ih =
    (_, refl, record { within = p; value_cases = inr (inr refl); consumed = omega arith })
after_read-Returns continue len before buffer input (got bytes rest) p q s ih =
    elim (Bool-cases (goes_on (length bytes) len)) [
      | inl short ↦
          rw (short, after_read)
            (ih (length buffer + length bytes) (buffer ++ bytes) rest
              (sym (length-append buffer bytes)) (omega arith) (omega arith) (omega arith))
      | inr whole ↦
          rw (whole, after_read)
            (
              _,
              refl,
              record {
                within = omega (arith, length-append buffer bytes);
                value_cases = inl (sym (length-append buffer bytes));
                consumed = omega (arith, length-append buffer bytes);
              },
            )
    ]

read_loop-Returns :
    (fuel len before total : ℕ) (buffer : List ℕ) (input : Input)
    → total ≡ length buffer
    → total ≤ len
    → weight input + total ≤ before
    → len - total < fuel
    → Returns len before (read_loop fuel len total buffer input)
unfolding read_loop
read_loop-Returns zero len before total buffer input e p q f = absurd (omega arith)
read_loop-Returns (suc fuel) len before total buffer input e p q f = rw e (
    after_read-Returns (λ t b i. read_loop fuel len t b i) len before buffer input
      (read (len - length buffer) input) (omega arith) (omega arith)
      (read-Sound (len - length buffer) input)
      (λ t b i same more bound left.
        read_loop-Returns fuel len before t b i same bound left (omega arith)))

pub safe_read_total :
    (len : ℕ) (input : Input)
    → len < 2 ^ 63
    → (r : ReadOutcome) × (safe_read len input ≡ some r) × Returned len (weight input) r
unfolding safe_read
safe_read_total len input bound = elim (Bool-cases (goes_on 0 len)) [
  | inl begins ↦ rw begins (
      read_loop-Returns (suc (suc len)) len (weight input) 0 [] input refl (omega arith)
        (omega arith) (omega arith))
  | inr no_round ↦
      rw no_round
        (_, refl, record { within = omega arith; value_cases = inl refl; consumed = omega arith })
]

-- What the loop of `safe_write` does with what is left: a first part is written, all of it unless a
-- call fails.
abbrev Writes : ℕ → List ℕ → List ℕ → Option WriteOutcome → Type 0
Writes total left written o =
    (value : ℕ) × (out' : Output) × (sent : List ℕ) × (unsent : List ℕ) × (o ≡ some (value, out'))
    × (sent ++ unsent ≡ left)
    × (out'.written ≡ written ++ sent)
    × ((value ≡ minus_one) ⊎ ((value ≡ total + length left) × (unsent ≡ [])))

write_loop-Writes :
    (fuel total : ℕ) (left written : List ℕ) (calls : List Acceptance)
    → length calls + 1 < fuel
    → Writes total left written
        (write_loop fuel total left (record { written = written; calls = calls }))
unfolding write_loop
write_loop-Writes zero total left written calls f = absurd (omega arith)
write_loop-Writes (suc fuel) total [] written calls f =
    (_, _, [], [], refl, refl, sym (append-nil written), inr (omega arith, refl))
write_loop-Writes (suc fuel) total (b ∷ left) written [] f =
    (_, _, b ∷ left, [], refl, append-nil (b ∷ left), refl, inr (refl, refl))
write_loop-Writes (suc fuel) total (b ∷ left) written (refuse ∷ calls) f =
    (_, _, [], b ∷ left, refl, refl, sym (append-nil written), inl refl)
write_loop-Writes (suc fuel) total (b ∷ left) written (accept n ∷ calls) f =
    let (value, out', sent, unsent, returned, parts, wrote, ends) =
      write_loop-Writes fuel (total + min n (length (b ∷ left))) (drop n (b ∷ left))
        (written ++ take n (b ∷ left)) calls (omega arith) in
    (
      value,
      out',
      take n (b ∷ left) ++ sent,
      unsent,
      returned,
      append_assoc (take n (b ∷ left)) sent unsent
          ∙ ap (λ l. take n (b ∷ left) ++ l) parts
          ∙ take-append-drop n (b ∷ left),
      wrote ∙ append_assoc written (take n (b ∷ left)) sent,
      whole value unsent ends,
    )
  where
    whole :
        (value : ℕ) (unsent : List ℕ)
        → (value ≡ minus_one)
          ⊎ ((value ≡ total + min n (length (b ∷ left)) + length (drop n (b ∷ left)))
              × (unsent ≡ []))
        → (value ≡ minus_one) ⊎ ((value ≡ total + length (b ∷ left)) × (unsent ≡ []))
    whole value unsent (inl e) = inl e
    whole value unsent (inr (e, all)) = inr (omega (arith, length-drop n (b ∷ left)), all)

-- Whatever the calls of write accept, safe_write returns: it has written the first bytes of the
-- buffer behind what was there, all of them unless its value is -1.
pub safe_write_total :
    (bytes : List ℕ) (out : Output)
    → (value : ℕ) × (out' : Output) × (sent : List ℕ) × (unsent : List ℕ) × (safe_write bytes out
        ≡ some (value, out'))
      × (sent ++ unsent ≡ bytes)
      × (out'.written ≡ out.written ++ sent)
      × ((value ≡ minus_one) ⊎ ((value ≡ length bytes) × (unsent ≡ [])))
unfolding safe_write
safe_write_total bytes out =
    let (value, out', sent, unsent, returned, parts, wrote, ends) =
      write_loop-Writes (length out.calls + 2) 0 bytes out.written out.calls (omega arith) in
    (value, out', sent, unsent, returned, parts, wrote, from_zero value unsent ends)
  where
    from_zero :
        (value : ℕ) (unsent : List ℕ)
        → (value ≡ minus_one) ⊎ ((value ≡ 0 + length bytes) × (unsent ≡ []))
        → (value ≡ minus_one) ⊎ ((value ≡ length bytes) × (unsent ≡ []))
    from_zero value unsent (inl e) = inl e
    from_zero value unsent (inr (e, all)) = inr (omega arith, all)

-- A value that is there.
abbrev pub IsSome {ℓ} : {A : Type ℓ} → Option A → Type ℓ
IsSome {A} o = (a : A) × (o ≡ some a)

pub safe_write-IsSome : (bytes : List ℕ) (out : Output) → IsSome (safe_write bytes out)
safe_write-IsSome bytes out =
    let (value, out', _, _, returned, _, _, _) = safe_write_total bytes out in
    ((value, out'), returned)

pub safe_read-IsSome : (len : ℕ) (input : Input) → len < 2 ^ 63 → IsSome (safe_read len input)
safe_read-IsSome len input bound =
    let (r, returned, _) = safe_read_total len input bound in (r, returned)
