-- ===== src/ThreadPool/Count.antt =====
-- How often a job stands in a list, and sums over the threads.
use net_calc.Prelude.{
  ℕ, zero, suc, ◌+◌, ◌<◌, ◌≤◌, ◌≡◌, refl, ap, arith, Bool, true, none, some, List, [], ◌∷◌, ◌++◌,
  map,
}
use net_calc.Prelude.{
  ltb, ltb→lt, Bool-cases, inl, inr, false, if◌then◌else◌, get_elem?, set, replicate, length,
}
use net_calc.Queue.Defs.{Node}
use net_calc.ThreadPool.Defs.{
  Worker, woken, waiting, asleep, running, deciding, saw_empty, finished,
}

none_here : (a b : ℕ) → ltb 0 a ≡ false → 0 < a + b → 0 < b
none_here a b e p = ground arith

module _ (f : Worker → ℕ) where
  abbrev pub total : List Worker → ℕ
  total [] = 0
  total (w ∷ workers) = f w + total workers

  pub total-set :
      (workers : List Worker) (i : ℕ) (w w' : Worker)
      → get_elem? workers i ≡ some w
      → total (set workers i w') + f w ≡ total workers + f w'
  total-set [] i w w' e =
      absurd (omega (arith, ap {B = ℕ} (λ o. elim o [ none ↦ 0 | some x ↦ 1 ]) e))
  total-set (v ∷ workers) zero w w' e =
      omega (arith, ap {B = ℕ} (λ o. elim o [ none ↦ 0 | some x ↦ f x ]) e)
  total-set (v ∷ workers) (suc i) w w' e = omega (arith, total-set workers i w w' e)

  pub le-total-set :
      (workers : List Worker) (i : ℕ) (w w' : Worker)
      → get_elem? workers i ≡ some w
      → f w' ≤ total (set workers i w')
  le-total-set [] i w w' e =
      absurd (omega (arith, ap {B = ℕ} (λ o. elim o [ none ↦ 0 | some x ↦ 1 ]) e))
  le-total-set (v ∷ workers) zero w w' e = omega arith
  le-total-set (v ∷ workers) (suc i) w w' e = omega (arith, le-total-set workers i w w' e)

  pub le-total :
      (workers : List Worker) (i : ℕ) (w : Worker)
      → get_elem? workers i ≡ some w
      → f w ≤ total workers
  le-total [] i w e = absurd (omega (arith, ap {B = ℕ} (λ o. elim o [ none ↦ 0 | some x ↦ 1 ]) e))
  le-total (v ∷ workers) zero w e =
      omega (arith, ap {B = ℕ} (λ o. elim o [ none ↦ 0 | some x ↦ f x ]) e)
  le-total (v ∷ workers) (suc i) w e = omega (arith, le-total workers i w e)

  pub total-replicate : (n : ℕ) (w : Worker) → f w ≡ 0 → total (replicate n w) ≡ 0
  total-replicate zero w e = refl
  total-replicate (suc n) w e = omega (arith, e, total-replicate n w e)

  -- A sum above 0 has a thread that counts.
  pub total_find :
      (workers : List Worker)
      → 0 < total workers
      → (i : ℕ) × (w : Worker) × (get_elem? workers i ≡ some w) × (0 < f w)
  total_find [] p = absurd (omega arith)
  total_find (w ∷ workers) p = elim (Bool-cases (ltb 0 (f w))) [
    | inl here ↦ (0, w, refl, ltb→lt 0 (f w) here)
    | inr there ↦
        let (i, v, at_i, counts) = total_find workers (none_here (f w) (total workers) there p) in
        (suc i, v, at_i, counts)
  ]

module _ (p : Node → Bool) where
  abbrev pub one : Node → ℕ
  one node = if p node then 1 else 0

  abbrev pub count : List Node → ℕ
  count [] = 0
  count (node ∷ nodes) = one node + count nodes

  -- The job that a thread is running.
  abbrev pub weight : Worker → ℕ
  weight waiting = 0
  weight asleep = 0
  weight (running node) = one node
  weight deciding = 0
  weight saw_empty = 0
  weight finished = 0

  abbrev pub in_hand : List Worker → ℕ
  in_hand workers = total weight workers

  pub count-append_one :
      (nodes : List Node) (node : Node) → count (nodes ++ (node ∷ [])) ≡ count nodes + one node
  count-append_one [] node = omega arith
  count-append_one (n ∷ nodes) node = omega (arith, count-append_one nodes node)

pub if-value :
    (f : Worker → ℕ) (c : ℕ) (b : Bool) (v w : Worker)
    → f v ≡ c
    → f w ≡ c
    → f (if b then v else w) ≡ c
if-value f c true v w e g = e
if-value f c false v w e g = g

-- The numbers of threads that sleep, that have left the loop, and that are under way.
abbrev pub asleep_one : Worker → ℕ
asleep_one asleep = 1
asleep_one waiting = 0
asleep_one (running node) = 0
asleep_one deciding = 0
asleep_one saw_empty = 0
asleep_one finished = 0

abbrev pub finished_one : Worker → ℕ
finished_one finished = 1
finished_one waiting = 0
finished_one asleep = 0
finished_one (running node) = 0
finished_one deciding = 0
finished_one saw_empty = 0

abbrev pub awake_one : Worker → ℕ
awake_one waiting = 1
awake_one asleep = 0
awake_one (running node) = 1
awake_one deciding = 1
awake_one saw_empty = 1
awake_one finished = 0

abbrev pub empty_one : Worker → ℕ
empty_one saw_empty = 1
empty_one waiting = 0
empty_one asleep = 0
empty_one (running node) = 0
empty_one deciding = 0
empty_one finished = 0

pub one_of_three : (w : Worker) → asleep_one w + finished_one w + awake_one w ≡ 1
one_of_three waiting = refl
one_of_three asleep = refl
one_of_three (running node) = refl
one_of_three deciding = refl
one_of_three saw_empty = refl
one_of_three finished = refl

pub total_parts :
    (workers : List Worker)
    → total asleep_one workers + total finished_one workers + total awake_one workers
      ≡ length workers
total_parts [] = omega arith
total_parts (w ∷ workers) = omega (arith, one_of_three w, total_parts workers)

pub total-woken :
    (workers : List Worker)
    → (total asleep_one (map woken workers) ≡ 0)
      × (total finished_one (map woken workers) ≡ total finished_one workers)
total-woken [] = (refl, refl)
total-woken (w ∷ workers) = omega (arith, one_woken w, total-woken workers)
  where
    one_woken :
        (w : Worker) → (asleep_one (woken w) ≡ 0) × (finished_one (woken w) ≡ finished_one w)
    one_woken waiting = (refl, refl)
    one_woken asleep = (refl, refl)
    one_woken (running node) = (refl, refl)
    one_woken deciding = (refl, refl)
    one_woken saw_empty = (refl, refl)
    one_woken finished = (refl, refl)

pub length-woken : (workers : List Worker) → length (map woken workers) ≡ length workers
length-woken [] = refl
length-woken (w ∷ workers) = ap suc (length-woken workers)

pub is_asleep : (w : Worker) → 0 < asleep_one w → w ≡ asleep
is_asleep asleep p = refl
is_asleep waiting p = absurd (omega arith)
is_asleep (running node) p = absurd (omega arith)
is_asleep deciding p = absurd (omega arith)
is_asleep saw_empty p = absurd (omega arith)
is_asleep finished p = absurd (omega arith)
