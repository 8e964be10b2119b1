-- ===== src/NetHandler/Packed.antt =====
-- The packed structures of 5_NetCalc/src/net_handler.c as bytes. Integers lie in memory with the
-- lowest byte first, as on the machines that the program is built for.
use net_calc.Prelude.{ℕ, zero, suc, ◌+◌, ◌*◌, ◌/◌, ◌%◌, List, [], ◌∷◌, ◌++◌, take, drop, reverse}

-- `n` as `k` bytes, and the number that bytes stand for.
abbrev pub bytes_of : ℕ → ℕ → List ℕ
bytes_of zero n = []
bytes_of (suc k) n = n % 256 ∷ bytes_of k (n / 256)

abbrev pub number_of : List ℕ → ℕ
number_of [] = 0
number_of (b ∷ bs) = b + 256 * number_of bs

-- The field of `size` bytes from `offset` on.
abbrev pub field_at : ℕ → ℕ → List ℕ → ℕ
field_at offset size bytes = number_of (take size (drop offset bytes))

-- `ntohl` and its kin: the bytes in the opposite order.
abbrev pub swap_bytes : ℕ → ℕ → ℕ
swap_bytes k n = number_of (reverse (bytes_of k n))

-- 27 bytes
pub record FileHeader : Type 0 where
  pub magic : ℕ
  pub file_id : ℕ
  pub num_equations : ℕ
  pub is_solved : ℕ
  pub offset : ℕ
  pub reserved : ℕ

abbrev pub header_of : List ℕ → FileHeader
header_of bytes = record {
  magic = field_at 0 4 bytes;
  file_id = field_at 4 8 bytes;
  num_equations = field_at 12 8 bytes;
  is_solved = field_at 20 1 bytes;
  offset = field_at 21 4 bytes;
  reserved = field_at 25 2 bytes;
}

abbrev pub header_bytes : FileHeader → List ℕ
header_bytes h =
    bytes_of 4 h.magic
    ++ (bytes_of 8 h.file_id
        ++ (bytes_of 8 h.num_equations
            ++ (bytes_of 1 h.is_solved ++ (bytes_of 4 h.offset ++ bytes_of 2 h.reserved))))

-- 32 bytes
pub record Equation : Type 0 where
  pub equation_id : ℕ
  pub reserved : ℕ
  pub num1 : ℕ
  pub oper : ℕ
  pub num2 : ℕ
  pub padding1 : ℕ
  pub padding2 : ℕ

abbrev pub equation_of : List ℕ → Equation
equation_of bytes = record {
  equation_id = field_at 0 4 bytes;
  reserved = field_at 4 1 bytes;
  num1 = field_at 5 8 bytes;
  oper = field_at 13 1 bytes;
  num2 = field_at 14 8 bytes;
  padding1 = field_at 22 8 bytes;
  padding2 = field_at 30 2 bytes;
}

abbrev pub equation_bytes : Equation → List ℕ
equation_bytes e =
    bytes_of 4 e.equation_id
    ++ (bytes_of 1 e.reserved
        ++ (bytes_of 8 e.num1
            ++ (bytes_of 1 e.oper
                ++ (bytes_of 8 e.num2 ++ (bytes_of 8 e.padding1 ++ bytes_of 2 e.padding2)))))

-- 14 bytes
pub record SolvedEquation : Type 0 where
  pub equation_id : ℕ
  pub is_solved : ℕ
  pub solution_type : ℕ
  pub solution : ℕ

abbrev pub solution_bytes : SolvedEquation → List ℕ
solution_bytes s =
    bytes_of 4 s.equation_id
    ++ (bytes_of 1 s.is_solved ++ (bytes_of 1 s.solution_type ++ bytes_of 8 s.solution))

-- 48 bytes. The numbers are as they lie in memory, in network order.
pub record NetHeader : Type 0 where
  pub header_size : ℕ
  pub file_name_len : ℕ
  pub file_size : ℕ
  pub filename : List ℕ

abbrev pub net_header_bytes : NetHeader → List ℕ
net_header_bytes h =
    bytes_of 4 h.header_size
    ++ (bytes_of 4 h.file_name_len ++ (bytes_of 8 h.file_size ++ h.filename))
