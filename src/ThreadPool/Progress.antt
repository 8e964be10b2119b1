-- ===== src/ThreadPool/Progress.antt =====
-- The threads are never stuck: a state in which nothing is left to do has run every job.
use net_calc.Prelude.{
  ℕ, zero, suc, ◌≤◌, ◌<◌, ◌≡◌, ◌≢◌, ◌⊎◌, ◌∙◌, inl, inr, refl, sym, ap, arith, Bool, false, some,
  List, [], ◌∷◌, ◌++◌, length, get_elem?, Bool-cases, ltb, ltb→lt, append-nil,
}
use net_calc.Queue.Defs.{Node}
use net_calc.Queue.Refine.{size-Holds}
use net_calc.ThreadPool.Defs.{
  System, Worker, waiting, asleep, running, deciding, saw_empty, finished, Phase, in_use, closing,
  joining, Work, locked_sleep, locked_take, job_done, looked_size, looked_active, signal_one,
  signal_none, broadcast, Reachable, may_take,
}
use net_calc.ThreadPool.Count.{
  count, in_hand, weight, total, le-total, total_find, total_parts, is_asleep, asleep_one,
  awake_one,
}
use net_calc.ThreadPool.Order.{Reachable-InOrder}
use net_calc.ThreadPool.Once.{count-taken}
use net_calc.ThreadPool.Sound.{Sound}
use net_calc.ThreadPool.Kept.{Reachable-Sound}

-- Nobody is under way, and no signal or broadcast is due.
pub record IsQuiet (s : System) : Type 0 where
  pub signalled : s.signalling ≡ 0
  pub none_awake : total awake_one s.workers ≡ 0
  pub not_closing : s.phase ≢ closing

abbrev pub CanWork : System → Type 0
CanWork s = (t : System) × Work s t

above : (k : ℕ) → ltb 0 k ≡ false → k ≡ 0
above k e = ground arith

worker-CanWork :
    (s : System) (i : ℕ) (w : Worker) → get_elem? s.workers i ≡ some w → 0 < awake_one w → CanWork s
worker-CanWork s i waiting e p = elim (Bool-cases (may_take s.pool)) [
  | inl job ↦ (_, locked_take s i e job)
  | inr no_job ↦ (_, locked_sleep s i e no_job)
]
worker-CanWork s i asleep e p = absurd (omega arith)
worker-CanWork s i (running node) e p = (_, job_done s i node e)
worker-CanWork s i deciding e p = (_, looked_size s i e)
worker-CanWork s i saw_empty e p = (_, looked_active s i e)
worker-CanWork s i finished e p = absurd (omega arith)

signal-CanWork : (s : System) (k : ℕ) → s.signalling ≡ suc k → CanWork s
signal-CanWork s k e = elim (Bool-cases (ltb 0 (total asleep_one s.workers))) [
  | inl one_asleep ↦
      let (i, w, at_i, counts) =
        total_find asleep_one s.workers (ltb→lt 0 (total asleep_one s.workers) one_asleep) in
      (_, signal_one s i k e (at_i ∙ ap some (is_asleep w counts)))
  | inr none_sleeps ↦ (
    _,
    signal_none s k e (λ i at_i. absurd (
        omega (
          arith,
          above (total asleep_one s.workers) none_sleeps,
          le-total asleep_one s.workers i asleep at_i,
        ))),
  )
]

phase_cases : (ph : Phase) → (ph ≡ closing) ⊎ (ph ≢ closing)
phase_cases in_use = inr (λ e. cc)
phase_cases closing = inl refl
phase_cases joining = inr (λ e. cc)

signalling_cases : (k : ℕ) → (k ≡ 0) ⊎ ((j : ℕ) × (k ≡ suc j))
signalling_cases zero = inl refl
signalling_cases (suc j) = inr (j, refl)

pub work_or_IsQuiet : (s : System) → CanWork s ⊎ IsQuiet s
work_or_IsQuiet s = elim (Bool-cases (ltb 0 (total awake_one s.workers))) [
  | inl one_awake ↦
      let (i, w, at_i, counts) =
        total_find awake_one s.workers (ltb→lt 0 (total awake_one s.workers) one_awake) in
      inl (worker-CanWork s i w at_i counts)
  | inr none_up ↦ elim (signalling_cases s.signalling) [
    | inr (k, due) ↦ inl (signal-CanWork s k due)
    | inl none_due ↦ elim (phase_cases s.phase) [
      | inl due ↦ inl (_, broadcast s due)
      | inr not_due ↦ inr (record {
        signalled = none_due;
        none_awake = above (total awake_one s.workers) none_up;
        not_closing = not_due;
      })
    ]
  ]
]

weight-le-awake : (p : Node → Bool) (w : Worker) → weight p w ≤ awake_one w
weight-le-awake p waiting = omega arith
weight-le-awake p asleep = omega arith
weight-le-awake p (running node) = ground arith
weight-le-awake p deciding = omega arith
weight-le-awake p saw_empty = omega arith
weight-le-awake p finished = omega arith

in_hand-le : (p : Node → Bool) (workers : List Worker) → in_hand p workers ≤ total awake_one workers
in_hand-le p [] = omega arith
in_hand-le p (w ∷ workers) = omega (arith, weight-le-awake p w, in_hand-le p workers)

-- With an empty queue and nobody under way, every accepted job has been run.
pub all_ran :
    (n : ℕ) (s : System) (p : Node → Bool)
    → Reachable n s
    → s.pool.job_pool.size ≡ 0
    → total awake_one s.workers ≡ 0
    → count p s.ran ≡ count p s.accepted
all_ran n s p r empty quiet =
    let (jobs, h, split) = Reachable-InOrder n s r in
    let all_taken =
      split
      ∙ ap (λ l. s.taken ++ l) (no_jobs jobs (sym (size-Holds s.pool.job_pool jobs h) ∙ empty))
      ∙ append-nil s.taken in
    omega (arith, quiet, count-taken n s p r, in_hand-le p s.workers, ap (count p) all_taken)
  where
    no_jobs : (jobs : List Node) → length jobs ≡ 0 → jobs ≡ []
    no_jobs [] e = refl
    no_jobs (job ∷ jobs) e = absurd (omega arith)

active-empty :
    (n : ℕ) (s : System)
    → Sound n s
    → s.pool.active ≡ 1
    → IsQuiet s
    → (s.pool.job_pool.size ≡ 0) × (total asleep_one s.workers ≡ n)
active-empty n s inv active quiet = (
  elim (inv.alert active) [
    | inl empty ↦ empty
    | inr (inl due) ↦ absurd (omega (arith, quiet.signalled))
    | inr (inr one_awake) ↦ absurd (omega (arith, quiet.none_awake))
  ],
  omega (arith, quiet.none_awake, inv.stays active, inv.threads, total_parts s.workers),
)

-- In every state that the threads of a new pool can reach in which the pool is active, a thread,
-- a due signal or the broadcast can go on, or else the queue is empty, every thread waits for
-- the condition, and, counted by any test on jobs, the jobs that were run are those that were
-- accepted: no wake-up is lost.
pub work_or_all_ran :
    (n : ℕ) (s : System) (p : Node → Bool)
    → Reachable n s
    → s.pool.active ≡ 1
    → CanWork s
      ⊎ ((s.pool.job_pool.size ≡ 0)
          × (total asleep_one s.workers ≡ n)
          × (count p s.ran ≡ count p s.accepted))
work_or_all_ran n s p r active = elim (work_or_IsQuiet s) [
  | inl more ↦ inl more
  | inr quiet ↦
      let (empty, all_asleep) = active-empty n s (Reachable-Sound n s r) active quiet in
      inr (empty, all_asleep, all_ran n s p r empty quiet.none_awake)
]
