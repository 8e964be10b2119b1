-- ===== src/FileIo/Read.antt =====
-- What `safe_read` returns, by how the data arrives.
use net_calc.Prelude.{
  ℕ, zero, suc, ◌+◌, ◌-◌, ◌^◌, ◌≤◌, ◌<◌, ◌≡◌, ◌≢◌, ◌⊎◌, inl, inr, refl, arith, true, false, Option,
  some, List, [], ◌∷◌, ◌++◌,
}
use net_calc.Prelude.{
  length-take, length, ltb, lt→ltb, Bool-cases, ap, append-nil, length-append, take-append,
  drop-append,
}
use net_calc.FileIo.Stream.{
  Input, piece, failure, ReadResult, at_end, failed, got, read, piece_left,
}
use net_calc.FileIo.Safe.{ReadOutcome, read_loop, safe_read, goes_on, after_read, minus_one}

-- A result that is no full read: 0, or -1 as a size_t.
abbrev pub GivesUp : Option ReadOutcome → Type 0
GivesUp o = (r : ReadOutcome) × (o ≡ some r) × ((r.value ≡ 0) ⊎ (r.value ≡ minus_one))

-- What a call brings is at most what was asked for, and not nothing.
abbrev Bounded : ℕ → ReadResult → Type 0
Bounded n at_end = Unit {0}
Bounded n (failed is_dir rest) = Unit {0}
Bounded n (got bytes rest) = (length bytes ≤ n) × (0 < length bytes)

read-Bounded : (n : ℕ) (input : Input) → Bounded n (read n input)
read-Bounded zero input = tt
read-Bounded (suc n) [] = tt
read-Bounded (suc n) (failure is_dir ∷ input) = tt
read-Bounded (suc n) (piece [] ∷ input) = tt
read-Bounded (suc n) (piece (b ∷ bs) ∷ input) = elim (Bool-cases (ltb n (length bs))) [
  | inl more ↦ rw more (omega (arith, length-take n bs))
  | inr all ↦ rw all (ground arith)
]

-- Below 2^31 bytes the cast changes nothing.
goes_on_short :
    (bytes_read len : ℕ) → bytes_read < len → len < 2 ^ 31 → goes_on bytes_read len ≡ true
unfolding goes_on
goes_on_short bytes_read len short l = ground arith

-- A full read ends the loop, for every length.
goes_on_full : (len : ℕ) → goes_on len len ≡ false
unfolding goes_on
goes_on_full len = ground arith

after_read-GivesUp :
    (continue : ℕ → List ℕ → Input → Option ReadOutcome) (len total : ℕ) (buffer : List ℕ)
    (input : Input) (r : ReadResult)
    → len < 2 ^ 31
    → 0 < total
    → total ≤ len
    → Bounded (len - total) r
    → ((t : ℕ) (b : List ℕ) (i : Input) → total < t → t ≤ len → GivesUp (continue t b i))
    → GivesUp (after_read continue len total buffer input r)
after_read-GivesUp continue len total buffer input at_end l p q b ih = (_, refl, inl refl)
after_read-GivesUp continue len total buffer input (failed true rest) l p q b ih =
    (_, refl, inl refl)
after_read-GivesUp continue len total buffer input (failed false rest) l p q b ih =
    (_, refl, inr refl)
after_read-GivesUp continue len total buffer input (got bytes rest) l p q b ih =
    rw (goes_on_short (length bytes) len (omega arith) l, after_read)
      (ih (total + length bytes) (buffer ++ bytes) rest (omega arith) (omega arith))

-- After a first short piece the loop never returns `len`: it goes on until a call brings nothing.
read_loop-GivesUp :
    (fuel len total : ℕ) (buffer : List ℕ) (input : Input)
    → len < 2 ^ 31
    → 0 < total
    → total ≤ len
    → len - total < fuel
    → GivesUp (read_loop fuel len total buffer input)
unfolding read_loop
read_loop-GivesUp zero len total buffer input l p q f = absurd (omega arith)
read_loop-GivesUp (suc fuel) len total buffer input l p q f =
    after_read-GivesUp (λ t b i. read_loop fuel len t b i) len total buffer input
      (read (len - total) input) l p q (read-Bounded (len - total) input)
      (λ t b i r s. read_loop-GivesUp fuel len t b i l (omega arith) s (omega arith))

not_ltb_of_le : (a b : ℕ) → b ≤ a → ltb a b ≡ false
not_ltb_of_le a b h = ground arith

not_ltb_self : (a : ℕ) → ltb a a ≡ false
not_ltb_self a = not_ltb_of_le a a (omega arith)

first_round :
    (fuel len : ℕ) (input : Input)
    → read_loop (suc fuel) len 0 [] input
      ≡ after_read (λ t b i. read_loop fuel len t b i) len 0 [] input (read len input)
unfolding read_loop
first_round fuel len input =
    ap (λ n. after_read (λ t b i. read_loop fuel len t b i) len 0 [] input (read n input)) same
  where
    same : len - 0 ≡ len
    same = omega arith

pub read_whole :
    (b : ℕ) (bs rest : List ℕ) (input : Input)
    → read (suc (length bs)) (piece (b ∷ (bs ++ rest)) ∷ input)
      ≡ got (b ∷ bs) (piece_left rest input)
read_whole b bs [] input = rw (append-nil bs, not_ltb_self (length bs))
read_whole b bs (c ∷ rest) input = rw (
  lt→ltb (length bs) (length (bs ++ (c ∷ rest))) (omega (arith, length-append bs (c ∷ rest))),
  take-append bs (c ∷ rest),
  drop-append bs (c ∷ rest),
)

-- If the first piece of data that arrives begins with as many bytes as the buffer takes, at
-- least one and fewer than 2^31, safe_read returns their number with exactly these bytes in the
-- buffer and leaves the rest of the piece and all later data to be read.
pub safe_read_whole :
    (bytes rest : List ℕ) (input : Input)
    → 0 < length bytes
    → length bytes < 2 ^ 31
    → safe_read (length bytes) (piece (bytes ++ rest) ∷ input)
      ≡ some (record { value = length bytes; buffer = bytes; rest = piece_left rest input })
unfolding safe_read
safe_read_whole [] rest input p l = absurd (omega arith)
safe_read_whole (b ∷ bs) rest input p l =
    rw
      (
        goes_on_short 0 (suc (length bs)) p l,
        first_round (suc (suc (length bs))) (suc (length bs)) (piece (b ∷ (bs ++ rest)) ∷ input),
        read_whole b bs rest input,
        after_read,
        goes_on_full (suc (length bs)),
      )
      (ground arith)

-- What comes in short is given up, whatever follows.
pub safe_read-GivesUp :
    (len : ℕ) (bytes : List ℕ) (input : Input)
    → 0 < length bytes
    → length bytes < len
    → len < 2 ^ 31
    → GivesUp (safe_read len (piece bytes ∷ input))
unfolding safe_read
safe_read-GivesUp len [] input p q l = absurd (omega arith)
safe_read-GivesUp zero (b ∷ bytes) input p q l = absurd (omega arith)
safe_read-GivesUp (suc len) (b ∷ bytes) input p q l =
    rw
      (
        goes_on_short 0 (suc len) (omega arith) l,
        first_round (suc (suc len)) (suc len) (piece (b ∷ bytes) ∷ input),
        read_short,
        after_read,
        goes_on_short (suc (length bytes)) (suc len) q l,
      )
      (read_loop-GivesUp (suc (suc len)) (suc len) (0 + suc (length bytes)) (b ∷ bytes) input l
        (omega arith) (omega arith) (omega arith))
  where
    read_short : read (suc len) (piece (b ∷ bytes) ∷ input) ≡ got (b ∷ bytes) input
    read_short = rw (not_ltb_of_le len (length bytes) (omega arith))

-- If the first piece of data that arrives is not empty and shorter than the buffer, which has
-- fewer than 2 ^ 31 bytes, safe_read returns, and returns 0 or -1 as a size_t, never the length
-- of the buffer, whatever arrives after it, even if the rest of the data follows.
pub safe_read_short :
    (len : ℕ) (bytes : List ℕ) (input : Input)
    → 0 < length bytes
    → length bytes < len
    → len < 2 ^ 31
    → (r : ReadOutcome) × (safe_read len (piece bytes ∷ input) ≡ some r)
      × ((r.value ≡ 0) ⊎ (r.value ≡ minus_one))
      × (r.value ≢ len)
safe_read_short len bytes input p q l =
    let (r, returned, value) = safe_read-GivesUp len bytes input p q l in
    (r, returned, value, λ full. never value full)
  where
    never : {v : ℕ} → (v ≡ 0) ⊎ (v ≡ minus_one) → v ≡ len → ⊥
    never (inl none_read) full = absurd (omega arith)
    never (inr failed_read) full = absurd (omega arith)
