-- ===== src/SimpleCalc/Stores.antt =====
-- What the signed functions store for two numbers.
use net_calc.Prelude.{
  ℕ, zero, suc, ◌≡◌, ◌≢◌, ◌∙◌, refl, sym, ap, subst, arith, Bool, true, false, Option, none, some,
  ◌==◌, if◌then◌else◌,
}
use net_calc.Prelude.Int.{ℤ, pos, eqb_ℤ, ◌+ℤ◌, ◌-ℤ◌, ◌*ℤ◌, quot_ℤ, rem_ℤ}
use net_calc.Words.{success, returns, of_num, half, fits, IsWord, int_min}
use net_calc.MathFuncs.Funcs.{MathFunc, add_func, sub_func, mult_func, div_func, mod_func}
use net_calc.MathFuncs.Exact.{exact, num-of_num, add_func-exact, sub_func-exact, mult_func-exact}
use net_calc.MathFuncs.Divide.{div_func-exact, mod_func-exact}
use net_calc.MathFuncs.Widths.{sign32}
use net_calc.CalcHandle.Defs.{switch_oper}

abbrev pub exact_result : ℕ → ℤ → ℤ → Option ℤ
exact_result oper x y =
    if oper == 1
    then some (x +ℤ y)
    else if oper == 2
    then some (x -ℤ y)
    else if oper == 3
    then some (x *ℤ y)
    else if oper == 4
    then (if eqb_ℤ y (pos 0) then none else some (quot_ℤ x y))
    else if oper == 5
    then (if eqb_ℤ y (pos 0) then none else some (rem_ℤ x y))
    else none

of_num-IsWord : (v : ℤ) → fits sign32 v ≡ true → IsWord sign32 (of_num sign32 v)
of_num-IsWord v h = ground arith

-- The function that the switch chooses stores the number.
abbrev pub Stores : ℕ → ℤ → ℤ → ℤ → Type 0
Stores oper x y r =
    (f : MathFunc) × (switch_oper sign32 oper ≡ some f)
    × (f (of_num sign32 x) (of_num sign32 y) (some 0) ≡ returns success (some (of_num sign32 r)))

exact_stored :
    (v r : ℤ)
    → some v ≡ some r
    → fits sign32 r ≡ true
    → exact sign32 v 0 ≡ returns success (some (of_num sign32 r))
exact_stored v r e h =
    subst (λ (u : ℤ). exact sign32 u 0 ≡ returns success (some (of_num sign32 r)))
      (sym (ap (λ (o : Option ℤ). elim o [ none ↦ v | some u ↦ u ]) e)) (rw h refl)

not_zero : (y : ℤ) → fits sign32 y ≡ true → eqb_ℤ y (pos 0) ≡ false → (of_num sign32 y == 0) ≡ false
not_zero y h e = ground arith

not_min :
    (y : ℤ) → fits sign32 y ≡ true → y ≢ int_min sign32 → (of_num sign32 y == half sign32) ≡ false
not_min y h e = ground arith

module _ (x y : ℤ) (x_fits : fits sign32 x ≡ true) (y_fits : fits sign32 y ≡ true) where
  add_stores :
      add_func sign32 (of_num sign32 x) (of_num sign32 y) (some 0) ≡ exact sign32 (x +ℤ y) 0
  add_stores =
      add_func-exact sign32 (of_num sign32 x) (of_num sign32 y) 0 (of_num-IsWord x x_fits)
        (of_num-IsWord y y_fits)
      ∙ rw (num-of_num sign32 x x_fits, num-of_num sign32 y y_fits) refl

  mult_stores :
      mult_func sign32 (of_num sign32 x) (of_num sign32 y) (some 0) ≡ exact sign32 (x *ℤ y) 0
  mult_stores =
      mult_func-exact sign32 (of_num sign32 x) (of_num sign32 y) 0 (of_num-IsWord x x_fits)
        (of_num-IsWord y y_fits)
      ∙ rw (num-of_num sign32 x x_fits, num-of_num sign32 y y_fits) refl

  sub_stores :
      (r : ℤ)
      → x -ℤ y ≡ r
      → fits sign32 r ≡ true
      → r ≢ int_min sign32
      → sub_func sign32 (of_num sign32 x) (of_num sign32 y) (some 0)
        ≡ returns success (some (of_num sign32 r))
  sub_stores r e h not_least =
      sub_func-exact sign32 (of_num sign32 x) (of_num sign32 y) 0 (of_num-IsWord x x_fits)
        (of_num-IsWord y y_fits)
      ∙ rw
          (
            num-of_num sign32 x x_fits,
            num-of_num sign32 y y_fits,
            e,
            not_above r h,
            not_least_lem r h not_least,
            h,
          )
          refl
    where
      not_above : (v : ℤ) → fits sign32 v ≡ true → eqb_ℤ v (pos (half sign32)) ≡ false
      not_above v p = ground arith

      not_least_lem :
          (v : ℤ) → fits sign32 v ≡ true → v ≢ int_min sign32 → eqb_ℤ v (int_min sign32) ≡ false
      not_least_lem v p q = ground arith

  div_stores :
      eqb_ℤ y (pos 0) ≡ false
      → div_func sign32 (of_num sign32 x) (of_num sign32 y) (some 0) ≡ exact sign32 (quot_ℤ x y) 0
  div_stores e =
      div_func-exact sign32 (of_num sign32 x) (of_num sign32 y) 0 (of_num-IsWord x x_fits)
        (of_num-IsWord y y_fits)
      ∙ rw (not_zero y y_fits e, num-of_num sign32 x x_fits, num-of_num sign32 y y_fits) refl

  mod_stores :
      eqb_ℤ y (pos 0) ≡ false
      → y ≢ int_min sign32
      → mod_func sign32 (of_num sign32 x) (of_num sign32 y) (some 0)
        ≡ returns success (some (of_num sign32 (rem_ℤ x y)))
  mod_stores e not_least =
      mod_func-exact sign32 (of_num sign32 x) (of_num sign32 y) 0 (of_num-IsWord x x_fits)
        (of_num-IsWord y y_fits)
      ∙ rw
          (
            not_zero y y_fits e,
            not_min y y_fits not_least,
            num-of_num sign32 x x_fits,
            num-of_num sign32 y y_fits,
          )
          refl

  from_some : {v r : ℤ} → some v ≡ some r → v ≡ r
  from_some {v} {r} e = ap {B = ℤ} (λ (o : Option ℤ). elim o [ none ↦ v | some u ↦ u ]) e

  divides :
      (b : Bool) (v r : ℤ) → (if b then none else some v) ≡ some r → (b ≡ false) × (some v ≡ some r)
  divides true v r e = absurd (cc)
  divides false v r e = (refl, e)

  no_result : (k : ℕ) → exact_result (suc (suc (suc (suc (suc (suc k)))))) x y ≡ none
  no_result k = ground arith

  pub exact_result-Stores :
      (oper : ℕ) (r : ℤ)
      → exact_result oper x y ≡ some r
      → fits sign32 r ≡ true
      → r ≢ int_min sign32
      → y ≢ int_min sign32
      → Stores oper x y r
  unfolding switch_oper
  exact_result-Stores zero r e h p q = absurd (cc)
  exact_result-Stores (suc zero) r e h p q =
      (add_func sign32, refl, add_stores ∙ exact_stored (x +ℤ y) r e h)
  exact_result-Stores (suc (suc zero)) r e h p q =
      (sub_func sign32, refl, sub_stores r (from_some e) h p)
  exact_result-Stores (suc (suc (suc zero))) r e h p q =
      (mult_func sign32, refl, mult_stores ∙ exact_stored (x *ℤ y) r e h)
  exact_result-Stores (suc (suc (suc (suc zero)))) r e h p q =
      let (some_y, e') = divides (eqb_ℤ y (pos 0)) (quot_ℤ x y) r e in
      (div_func sign32, refl, div_stores some_y ∙ exact_stored (quot_ℤ x y) r e' h)
  exact_result-Stores (suc (suc (suc (suc (suc zero))))) r e h p q =
      let (some_y, e') = divides (eqb_ℤ y (pos 0)) (rem_ℤ x y) r e in
      (
        mod_func sign32,
        refl,
        mod_stores some_y q ∙ ap (λ v. returns success (some (of_num sign32 v))) (from_some e'),
      )
  exact_result-Stores (suc (suc (suc (suc (suc (suc k)))))) r e h p q =
      absurd (none-some (sym (no_result k) ∙ e))
    where
      none-some : {v : ℤ} → none ≡ some v → ⊥
      none-some e = cc
