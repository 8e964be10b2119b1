-- ===== src/Queue/Span.antt =====
-- The slots of a circular array.
use native.Mathlib.Nat.{mod-add-mod, mod-eq_of_lt, mod-eq-sub-mod, add-zero}
use native.Mathlib.Decide.{dec_lt}
use net_calc.Prelude.{
  ℕ, zero, suc, ◌+◌, ◌-◌, ◌%◌, ◌≤◌, ◌<◌, ◌≡◌, ◌≢◌, ◌∙◌, refl, sym, ap, ap₂, subst, arith,
}
use net_calc.Prelude.{List, [], ◌∷◌, ◌++◌, length, get_or, set, get_or-set_self, get_or-set_ne}

module _ {ℓ} {A : Type ℓ} (d : A) (cap : ℕ) where
  -- The `n` slots from `h` on, going round at `cap`.
  abbrev pub span : List A → ℕ → ℕ → List A
  span items h zero = []
  span items h (suc n) = get_or items h d ∷ span items ((h + 1) % cap) n

  pub length-span : (items : List A) (h n : ℕ) → length (span items h n) ≡ n
  length-span items h zero = refl
  length-span items h (suc n) = ap suc (length-span items ((h + 1) % cap) n)

  -- The slot `k` places on is another one, for 0 < k < cap.
  slot_ne : (h k : ℕ) → h < cap → 0 < k → k < cap → (h + k) % cap ≢ h
  slot_ne h k p z q = elim (dec_lt (h + k) cap) [
    | yes below ↦ omega (arith, mod-eq_of_lt below)
    | no above ↦ omega (
      arith,
      mod-eq-sub-mod {n = h + k} {m = cap} (omega arith),
      mod-eq_of_lt {n = h + k - cap} {m = cap} (omega arith),
    )
  ]

  step_mod : (h n : ℕ) → ((h + 1) % cap + n) % cap ≡ (h + suc n) % cap
  step_mod h n = mod-add-mod (h + 1) cap n ∙ ap (λ k. k % cap) (shift h n)
    where
      shift : (h n : ℕ) → h + 1 + n ≡ h + suc n
      shift h n = omega arith

  step_lt : (h : ℕ) → h < cap → (h + 1) % cap < cap
  step_lt h p = omega arith

  -- A write to the slot after a span adds to the span.
  pub span-set_after :
      (items : List A) (v : A) (n h : ℕ)
      → length items ≡ cap
      → h < cap
      → n < cap
      → span (set items ((h + n) % cap) v) h (suc n) ≡ span items h n ++ (v ∷ [])
  span-set_after items v zero h l p q =
      ap (λ x. x ∷ []) (rw (add-zero, mod-eq_of_lt p) (get_or-set_self items h v d (omega arith)))
  span-set_after items v (suc n) h l p q =
      ap₂ ◌∷◌ (get_or-set_ne items ((h + suc n) % cap) h v d (slot_ne h (suc n) p (omega arith) q))
        (subst
          (λ j.
            span (set items j v) ((h + 1) % cap) (suc n) ≡ span items ((h + 1) % cap) n ++ (v ∷ []))
          (step_mod h n) (span-set_after items v n ((h + 1) % cap) l (step_lt h p) (omega arith)))

  next_slot : (i k h : ℕ) → h ≡ (i + k) % cap → (h + 1) % cap ≡ (i + suc k) % cap
  next_slot i k h e = rw e (mod-add-mod (i + k) cap 1 ∙ ap (λ j. j % cap) (shift i k))
    where
      shift : (i k : ℕ) → i + k + 1 ≡ i + suc k
      shift i k = omega arith

  -- A write to a slot outside leaves the span alone.
  pub span-set_outside :
      (items : List A) (v : A) (i n h k : ℕ)
      → i < cap
      → h ≡ (i + k) % cap
      → 0 < k
      → k + n ≤ cap
      → span (set items i v) h n ≡ span items h n
  span-set_outside items v i zero h k p e z q = refl
  span-set_outside items v i (suc n) h k p e z q =
      ap₂ ◌∷◌
        (get_or-set_ne items i h v d (λ same. slot_ne i k p z (omega arith) (sym e ∙ sym same)))
        (span-set_outside items v i n ((h + 1) % cap) (suc k) p (next_slot i k h e) (omega arith)
          (omega arith))
