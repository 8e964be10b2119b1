-- ===== src/CalcHandle/Texts.antt =====
-- The operators' texts: which ones `translate_op` takes, and how `choose_check` sorts them.
use net_calc.Prelude.{
  ℕ, zero, suc, ◌+◌, ◌-◌, ◌<◌, ◌≡◌, ◌↔◌, refl, ap, sym, true, some, List, [], ◌∷◌, arith, ◌⊎◌, inl,
  inr,
}
use net_calc.Prelude.{◌==◌, leb, if◌then◌else◌, length, get_elem?, Bool-cases, ==_iff}
use net_calc.Words.{success}
use net_calc.CalcHandle.Opers.{CString, strncmp_equal, max_chars, ops_str, find_oper, count_until}
use net_calc.CalcHandle.Opers.{translate_op, choose_check, signed_check, unsigned_check, mod64}

-- A comparison of `n` characters is an equality with a text that is shorter.
pub strncmp_equal_iff :
    (n : ℕ) (s t : CString) → length t < n → (strncmp_equal n s t ≡ true) ↔ (s ≡ t)
unfolding strncmp_equal
strncmp_equal_iff zero s t h = elim h [ ]
strncmp_equal_iff (suc n) [] [] h = (λ e. refl, λ e. refl)
strncmp_equal_iff (suc n) [] (d ∷ t) h = (λ e. cc, λ e. cc)
strncmp_equal_iff (suc n) (c ∷ s) [] h = (λ e. cc, λ e. cc)
strncmp_equal_iff (suc n) (c ∷ s) (d ∷ t) h = ground (arith, ==_iff c d, strncmp_equal_iff n s t)

abbrev AllShort : List CString → Type 0
AllShort [] = Unit {0}
AllShort (op ∷ ops) = (length op < max_chars) × AllShort ops

-- What the search leaves behind: an entry that is the text, or the old value.
find_oper_sound :
    (s : CString) (ops : List CString) (idx old : ℕ)
    → AllShort ops
    → (find_oper s ops idx old ≡ old)
      ⊎ ((j : ℕ) × (find_oper s ops idx old ≡ idx + j) × (get_elem? ops j ≡ some s))
unfolding find_oper
find_oper_sound s [] idx old h = inl refl
find_oper_sound s (op ∷ ops) idx old h = elim (Bool-cases (strncmp_equal max_chars s op)) [
  | inl e ↦ inr (0, rw e (omega arith), ap some (sym ((strncmp_equal_iff max_chars s op h.0).0 e)))
  | inr n ↦ rw n (elim (find_oper_sound s ops (idx + 1) old h.1) [
    | inl e ↦ inl e
    | inr (j, e, g) ↦ inr (suc j, omega arith, g)
  ])
]

ops_short : AllShort ops_str
ops_short = omega arith

translate_op_sound :
    (s : CString) (oper : ℕ)
    → translate_op (some s) 0 ≡ (success, oper)
    → (0 < oper) × (get_elem? ops_str (oper - 1) ≡ some s)
unfolding translate_op
translate_op_sound s oper h = elim (find_oper_sound s ops_str 1 0 ops_short) [
  | inl e ↦ absurd (ground arith)
  | inr (j, e, g) ↦ (ground arith, let e' : oper - 1 ≡ j = ground arith in rw e' g)
]

pub get_elem?-lt {ℓ} :
    {A : Type ℓ} (xs : List A) (j : ℕ) (x : A) → get_elem? xs j ≡ some x → j < length xs
get_elem?-lt [] j x h = cc
get_elem?-lt (y ∷ xs) zero x h = omega arith
get_elem?-lt (y ∷ xs) (suc j) x h = omega (arith, get_elem?-lt xs j x h)

-- Every entry of the table is found under its own index.
translate_op_complete : (j : ℕ) → j < 12 → translate_op (get_elem? ops_str j) 0 ≡ (success, suc j)
unfolding translate_op find_oper strncmp_equal
translate_op_complete zero h = refl
translate_op_complete (suc zero) h = refl
translate_op_complete (suc (suc zero)) h = refl
translate_op_complete (suc (suc (suc zero))) h = refl
translate_op_complete (suc (suc (suc (suc zero)))) h = refl
translate_op_complete (suc (suc (suc (suc (suc zero))))) h = refl
translate_op_complete (suc (suc (suc (suc (suc (suc zero)))))) h = refl
translate_op_complete (suc (suc (suc (suc (suc (suc (suc zero))))))) h = refl
translate_op_complete (suc (suc (suc (suc (suc (suc (suc (suc zero)))))))) h = refl
translate_op_complete (suc (suc (suc (suc (suc (suc (suc (suc (suc zero))))))))) h = refl
translate_op_complete (suc (suc (suc (suc (suc (suc (suc (suc (suc (suc zero)))))))))) h = refl
translate_op_complete (suc (suc (suc (suc (suc (suc (suc (suc (suc (suc (suc zero))))))))))) h =
    refl
translate_op_complete (suc (suc (suc (suc (suc (suc (suc (suc (suc (suc (suc (suc j)))))))))))) h =
    absurd (omega arith)

-- With 0 in the translated number, translate_op succeeds with an operator number exactly if the
-- text is the entry of the operator table at that number, from 1 on.
pub translate_op_iff :
    (s : CString) (oper : ℕ)
    → (translate_op (some s) 0 ≡ (success, oper))
      ↔ ((0 < oper) × (get_elem? ops_str (oper - 1) ≡ some s))
translate_op_iff s oper = (translate_op_sound s oper, λ h. back h.0 h.1)
  where
    back :
        0 < oper → get_elem? ops_str (oper - 1) ≡ some s → translate_op (some s) 0 ≡ (success, oper)
    back p e =
        let e' : suc (oper - 1) ≡ oper = omega arith in
        rw (e, e') at (translate_op_complete (oper - 1) (get_elem?-lt ops_str (oper - 1) s e))

-- The two loops stop at the same entry; without one, `count_until` has counted them all.
count_until-find_oper :
    (s : CString) (ops : List CString) (iter : ℕ)
    → count_until s ops iter ≡ (
        if find_oper s ops (iter + 1) 0 == 0
        then iter + length ops
        else find_oper s ops (iter + 1) 0)
unfolding count_until find_oper
count_until-find_oper s [] iter = omega arith
count_until-find_oper s (op ∷ ops) iter = elim (Bool-cases (strncmp_equal max_chars s op)) [
  | inl e ↦ rw e (ground arith)
  | inr n ↦ rw n (ground (arith, count_until-find_oper s ops (iter + 1)))
]

-- For every text, choose_check answers SIGNED if translate_op finds an operator numbered at most
-- MOD64, and UNSIGNED if it finds a later one or none at all.
pub choose_check-translate_op :
    (s : CString)
    → let oper = (translate_op (some s) 0).1 in
      choose_check (some s) ≡ (
        if oper == 0
        then unsigned_check
        else if leb oper mod64
        then signed_check
        else unsigned_check)
unfolding choose_check translate_op
choose_check-translate_op s = ground (arith, count_until-find_oper s ops_str 0)
