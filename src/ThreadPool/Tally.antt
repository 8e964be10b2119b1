-- ===== src/ThreadPool/Tally.antt =====
-- How often the calls of a creation or a destruction make, release, start and join something.
use net_calc.Prelude.{
  ℕ, zero, suc, ◌+◌, ◌≡◌, inl, inr, ltb, refl, arith, Bool, true, false, List, [], ◌∷◌, ◌++◌,
  Bool-cases, ◌==◌, if◌then◌else◌,
}
use net_calc.ThreadPool.Defs.{created}
use net_calc.ThreadPool.Create.{
  Piece, pool_piece, queue_piece, handles_piece, mutex_piece, condition_piece, Call, makes,
  releases, starts, joins, start_threads, next_thread, join_threads,
}

module _ (f : Call → ℕ) where
  abbrev pub tally : List Call → ℕ
  tally [] = 0
  tally (c ∷ calls) = f c + tally calls

  pub tally-append : (a b : List Call) → tally (a ++ b) ≡ tally a + tally b
  tally-append [] b = omega arith
  tally-append (c ∷ a) b = omega (arith, tally-append a b)

  -- Calls that do not count can be left out.
  pub tally-quiet : (a b : List Call) → tally a ≡ 0 → tally (a ++ b) ≡ tally b
  tally-quiet a b none_counted = omega (arith, tally-append a b, none_counted)

  pub tally-start_threads :
      (created : ℕ → Bool) (left iter : ℕ)
      → ((i : ℕ) → f (starts i) ≡ 0)
      → tally (start_threads created left iter).0 ≡ 0
  unfolding start_threads
  tally-start_threads created zero iter none_counted = refl
  tally-start_threads created (suc left) iter none_counted = elim (Bool-cases (created iter)) [
    | inl e ↦
        rw e (
          omega
            (arith, none_counted iter, tally-start_threads created left (iter + 1) none_counted))
    | inr e ↦ rw e refl
  ]

  pub tally-join_threads :
      (left iter : ℕ) → ((i : ℕ) → f (joins i) ≡ 0) → tally (join_threads left iter) ≡ 0
  unfolding join_threads
  tally-join_threads zero iter none_counted = refl
  tally-join_threads (suc left) iter none_counted =
      omega (arith, none_counted iter, tally-join_threads left (iter + 1) none_counted)

abbrev place : Piece → ℕ
place pool_piece = 0
place queue_piece = 1
place handles_piece = 2
place mutex_piece = 3
place condition_piece = 4

abbrev pub making : Piece → Call → ℕ
making p (makes q) = if place q == place p then 1 else 0
making p (releases q) = 0
making p (starts i) = 0
making p (joins i) = 0

abbrev pub releasing : Piece → Call → ℕ
releasing p (makes q) = 0
releasing p (releases q) = if place q == place p then 1 else 0
releasing p (starts i) = 0
releasing p (joins i) = 0

abbrev pub starting : ℕ → Call → ℕ
starting i (makes p) = 0
starting i (releases p) = 0
starting i (starts j) = if j == i then 1 else 0
starting i (joins j) = 0

abbrev pub joining : ℕ → Call → ℕ
joining i (makes p) = 0
joining i (releases p) = 0
joining i (starts j) = 0
joining i (joins j) = if j == i then 1 else 0

abbrev pub between : ℕ → ℕ → ℕ → ℕ
between iter left i = if ltb i iter then 0 else if ltb i (iter + left) then 1 else 0

step_between :
    (iter left i : ℕ)
    → (if iter == i then 1 else 0) + between (iter + 1) left i ≡ between iter (suc left) i
step_between iter left i = ground arith

no_round : (iter i : ℕ) → 0 ≡ between iter 0 i
no_round iter i = ground arith

after_round :
    (b : Bool) (rest : List Call × Bool) (left iter i : ℕ)
    → (next_thread b iter rest).1 ≡ true
    → (rest.1 ≡ true → tally (starting i) rest.0 ≡ between (iter + 1) left i)
    → tally (starting i) (next_thread b iter rest).0 ≡ between iter (suc left) i
after_round true rest left iter i e counted = omega (arith, counted e, step_between iter left i)
after_round false rest left iter i e counted = absurd (cc e)

pub starting-start_threads :
    (created : ℕ → Bool) (left iter i : ℕ)
    → (start_threads created left iter).1 ≡ true
    → tally (starting i) (start_threads created left iter).0 ≡ between iter left i
unfolding start_threads
starting-start_threads created zero iter i e = no_round iter i
starting-start_threads created (suc left) iter i e =
    after_round (created iter) (start_threads created left (iter + 1)) left iter i e
      (starting-start_threads created left (iter + 1) i)

pub joining-join_threads :
    (left iter i : ℕ) → tally (joining i) (join_threads left iter) ≡ between iter left i
unfolding join_threads
joining-join_threads zero iter i = no_round iter i
joining-join_threads (suc left) iter i =
    omega (arith, joining-join_threads left (iter + 1) i, step_between iter left i)
