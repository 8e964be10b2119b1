-- ===== src/ThreadPool/Represent.antt =====
-- Which state of the executor a state of the pool stands for.
use net_calc.Prelude.{
  ℕ, zero, suc, ◌≡◌, ◌∙◌, refl, sym, ap, subst, arith, some, none, List, [], ◌∷◌, ◌++◌, map,
  append_assoc, replicate, get_elem?, set,
}
use net_calc.Queue.Defs.{Node}
use net_calc.Queue.Refine.{Holds}
use net_calc.ThreadPool.Defs.{
  System, Worker, waiting, asleep, running, deciding, saw_empty, finished, woken, threadpool_create,
}
use net_calc.ThreadPool.Order.{from_start}
use net_calc.ThreadPool.Executor.{Executor, idle, Moves, stays}

abbrev pub job_of : Worker → List Node
job_of waiting = []
job_of asleep = []
job_of (running node) = node ∷ []
job_of deciding = []
job_of saw_empty = []
job_of finished = []

abbrev pub running_jobs : List Worker → List Node
running_jobs [] = []
running_jobs (w ∷ workers) = job_of w ++ running_jobs workers

-- The list around the job of one thread, whatever the thread does.
abbrev pub Around : List Worker → ℕ → Worker → Type 0
Around workers i w =
    (before : List Node) × (after : List Node) × (running_jobs workers
      ≡ before ++ (job_of w ++ after))
    × ((v : Worker) → running_jobs (set workers i v) ≡ before ++ (job_of v ++ after))

pub around :
    (workers : List Worker) (i : ℕ) (w : Worker) → get_elem? workers i ≡ some w → Around workers i w
around [] i w e = absurd (omega (arith, ap {B = ℕ} (λ o. elim o [ none ↦ 0 | some x ↦ 1 ]) e))
around (v ∷ workers) zero w e = (
  [],
  running_jobs workers,
  ap (λ j. j ++ running_jobs workers) (ap (λ o. elim o [ none ↦ [] | some x ↦ job_of x ]) e),
  λ u. refl,
)
around (v ∷ workers) (suc i) w e =
    let (before, after, now, then_) = around workers i w e in
    (
      job_of v ++ before,
      after,
      ap (λ l. job_of v ++ l) now ∙ sym (append_assoc (job_of v) before (job_of w ++ after)),
      λ u.
          ap (λ l. job_of v ++ l) (then_ u)
          ∙ sym (append_assoc (job_of v) before (job_of u ++ after)),
    )

job_of-woken : (w : Worker) → job_of (woken w) ≡ job_of w
job_of-woken waiting = refl
job_of-woken asleep = refl
job_of-woken (running node) = refl
job_of-woken deciding = refl
job_of-woken saw_empty = refl
job_of-woken finished = refl

pub running_jobs-woken :
    (workers : List Worker) → running_jobs (map woken workers) ≡ running_jobs workers
running_jobs-woken [] = refl
running_jobs-woken (w ∷ workers) =
    ap (λ j. j ++ running_jobs (map woken workers)) (job_of-woken w)
    ∙ ap (λ l. job_of w ++ l) (running_jobs-woken workers)

pub record Represents (s : System) (e : Executor) : Type 0 where
  pub holds : Holds s.pool.job_pool e.queued
  pub runs : e.in_progress ≡ running_jobs s.workers
  pub over : e.ended ≡ s.ran

-- A thread that has no job goes to a place where it has none.
pub moved :
    (workers : List Worker) (i : ℕ) (w v : Worker)
    → get_elem? workers i ≡ some w
    → job_of w ≡ []
    → job_of v ≡ []
    → running_jobs (set workers i v) ≡ running_jobs workers
moved workers i w v e a b =
    let (before, after, now, later) = around workers i w e in
    later v ∙ ap (λ j. before ++ (j ++ after)) (b ∙ sym a) ∙ sym now

abbrev pub Moved : System → Executor → Type 0
Moved t e = (e' : Executor) × Moves e e' × Represents t e'

pub still :
    (s t : System) (e : Executor)
    → Represents s e
    → t.pool.job_pool ≡ s.pool.job_pool
    → running_jobs t.workers ≡ running_jobs s.workers
    → t.ran ≡ s.ran
    → Moved t e
still s t e r pool jobs ran = (
  e,
  stays e,
  record {
    holds = subst (λ q. Holds q e.queued) (sym pool) r.holds;
    runs = r.runs ∙ sym jobs;
    over = r.over ∙ sym ran;
  },
)

running_jobs-replicate : (n : ℕ) → running_jobs (replicate n waiting) ≡ []
running_jobs-replicate zero = refl
running_jobs-replicate (suc n) = running_jobs-replicate n

-- A new pool represents the idle executor.
pub start-Represents : (n : ℕ) (s : System) → threadpool_create n ≡ some s → Represents s idle
start-Represents n =
    from_start (λ s. Represents s idle) n
      (λ q h room some_thread. record {
        holds = h;
        runs = sym (running_jobs-replicate n);
        over = refl;
      })
