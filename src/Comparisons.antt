-- ===== src/Comparisons.antt =====
-- 0_Common/src/comparisons.c and its enumeration in 0_Common/include/comparisons.h.
use net_calc.Prelude.{◌≡◌, ◌↔◌, refl, arith, Option, none, some, if◌then◌else◌}
use net_calc.Prelude.Int.{ℤ, pos, negsuc, ltb_ℤ, eqb_ℤ}

-- The return values ERROR (-1), EQUAL, ONE, TWO and NOT_EQUAL.
pub data CompRtns : Type 0 where
  error equal one two not_equal : CompRtns

-- The pointers to the two numbers, `none` for NULL.
unfoldable pub int_comp : Option ℤ → Option ℤ → CompRtns
int_comp none node_two_data = error
int_comp (some a) none = error
int_comp (some a) (some b) = if eqb_ℤ a b then equal else if ltb_ℤ b a then one else two

abbrev pub swapped : CompRtns → CompRtns
swapped error = error
swapped equal = equal
swapped one = two
swapped two = one
swapped not_equal = not_equal

abbrev pub may_be_first : CompRtns → CompRtns → CompRtns
may_be_first one two = one
may_be_first a b = b

-- Exchanging the two pointers exchanges ONE and TWO and changes nothing else.
int_comp-swapped : (p q : Option ℤ) → int_comp q p ≡ swapped (int_comp p q)
unfolding int_comp
int_comp-swapped none none = refl
int_comp-swapped none (some b) = refl
int_comp-swapped (some a) none = refl
int_comp-swapped (some a) (some b) = ground arith

-- A number that is larger than one that is larger than a third is larger than the third.
int_comp_trans :
    (a b c : ℤ)
    → int_comp (some a) (some b) ≡ one
    → int_comp (some b) (some c) ≡ one
    → int_comp (some a) (some c) ≡ one
unfolding int_comp
int_comp_trans a b c p q = ground arith

-- The numbers are equal exactly when EQUAL is returned.
int_comp_equal_iff : (a b : ℤ) → (int_comp (some a) (some b) ≡ equal) ↔ (a ≡ b)
unfolding int_comp
int_comp_equal_iff (pos a) (pos b) = ground arith
int_comp_equal_iff (pos a) (negsuc b) = ground arith
int_comp_equal_iff (negsuc a) (pos b) = ground arith
int_comp_equal_iff (negsuc a) (negsuc b) = ground arith
