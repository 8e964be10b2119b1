-- ===== src/CalcHandle/Opers.antt =====
-- The operators as texts: the table `p_ops_str_64`, `choose_check` and `translate_op` of
-- 0_Common/src/calc_handle.c, and their copies in calc_handle_thirty_two.c.
-- A C string is the list of its bytes, without the final zero; `none` is NULL.
use net_calc.Prelude.{ℕ, zero, suc, ◌+◌, Bool, true, false, ◌&&◌, Option, none, some, List, [], ◌∷◌}
use net_calc.Prelude.{◌==◌, leb, if◌then◌else◌}
use net_calc.Words.{Status, success, error}

abbrev pub CString : Type 0
CString = List ℕ

-- `0 == strncmp(s, t, n)`
unfoldable pub strncmp_equal : ℕ → CString → CString → Bool
strncmp_equal zero s t = true
strncmp_equal (suc n) [] [] = true
strncmp_equal (suc n) [] (d ∷ t) = false
strncmp_equal (suc n) (c ∷ s) [] = false
strncmp_equal (suc n) (c ∷ s) (d ∷ t) = c == d && strncmp_equal n s t

abbrev pub max_chars : ℕ
max_chars = 4

-- The table from index 1 on; entry 0 is the empty string, and is never compared.
abbrev pub ops_str : List CString
ops_str =
    (b'+' ∷ [])
    ∷ (b'-' ∷ [])
    ∷ (b'*' ∷ [])
    ∷ (b'/' ∷ [])
    ∷ (b'%' ∷ [])
    ∷ (b'<' ∷ b'<' ∷ [])
    ∷ (b'>' ∷ b'>' ∷ [])
    ∷ (b'&' ∷ [])
    ∷ (b'|' ∷ [])
    ∷ (b'^' ∷ [])
    ∷ (b'<' ∷ b'<' ∷ b'<' ∷ [])
    ∷ (b'>' ∷ b'>' ∷ b'>' ∷ [])
    ∷ []

-- What `choose_check` returns: ERROR (-1), SIGNED (1) or UNSIGNED (2).
pub data Check : Type 0 where
  check_error signed_check unsigned_check : Check

-- The loop of `choose_check`: `iter` counts the entries looked at, the matching one included.
unfoldable pub count_until : CString → List CString → ℕ → ℕ
count_until p_oper [] iter = iter
count_until p_oper (op ∷ ops) iter =
    if strncmp_equal max_chars p_oper op then iter + 1 else count_until p_oper ops (iter + 1)

abbrev pub mod64 : ℕ
mod64 = 5

unfoldable pub choose_check : Option CString → Check
choose_check none = check_error
choose_check (some p_oper) =
    if leb (count_until p_oper ops_str 0) mod64 then signed_check else unsigned_check

-- The loop of `translate_op` from index `idx` on, with the value of `*p_translated_num`.
unfoldable pub find_oper : CString → List CString → ℕ → ℕ → ℕ
find_oper p_oper [] idx translated = translated
find_oper p_oper (op ∷ ops) idx translated =
    if strncmp_equal max_chars p_oper op then idx else find_oper p_oper ops (idx + 1) translated

-- Returns the status and `*p_translated_num`.
unfoldable pub translate_op : Option CString → ℕ → Status × ℕ
translate_op none translated = (error, translated)
translate_op (some p_oper) translated =
    let found = find_oper p_oper ops_str 1 translated in
    if found == 0 then (error, found) else (success, found)
