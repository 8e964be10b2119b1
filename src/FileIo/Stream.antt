-- ===== src/FileIo/Stream.antt =====
-- What the calls `read` and `write` of the system do on one descriptor.
use net_calc.Prelude.{ℕ, zero, suc, Bool, List, [], ◌∷◌, length, take, drop}
use net_calc.Prelude.{ltb, if◌then◌else◌}

-- What arrives, in the pieces in which it arrives. A failing call tells whether errno is EISDIR.
pub data Arrival : Type 0 where
  piece : List ℕ → Arrival
  failure : Bool → Arrival

abbrev pub Input : Type 0
Input = List Arrival

-- The end of the data, -1 with errno, or bytes.
pub data ReadResult : Type 0 where
  at_end : ReadResult
  failed : Bool → Input → ReadResult
  got : List ℕ → Input → ReadResult

-- A call for `count` bytes takes at most one piece, and for 0 bytes nothing.
abbrev pub read : ℕ → Input → ReadResult
read zero input = at_end
read (suc n) [] = at_end
read (suc n) (failure is_dir ∷ input) = failed is_dir input
read (suc n) (piece [] ∷ input) = at_end
read (suc n) (piece (b ∷ bs) ∷ input) =
    if ltb n (length bs)
    then got (b ∷ take n bs) (piece (drop n bs) ∷ input)
    else got (b ∷ bs) input

-- What is left of a piece of which some bytes were taken.
abbrev pub piece_left : List ℕ → Input → Input
piece_left [] input = input
piece_left (b ∷ bs) input = piece (b ∷ bs) ∷ input

-- How the other side takes what is written: a call accepts at most so many bytes, or fails.
pub data Acceptance : Type 0 where
  accept : ℕ → Acceptance
  refuse : Acceptance

-- A descriptor for writing: what was written, and how the next calls go. With no entry left a call
-- takes everything.
pub record Output : Type 0 where
  pub written : List ℕ
  pub calls : List Acceptance
