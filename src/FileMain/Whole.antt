-- ===== src/FileMain/Whole.antt =====
-- The file calculator as a whole: `directory_parse` gives its jobs to the pool, and the pool is
-- destroyed.
use net_calc.Prelude.{
  inl, inr, ℕ, subst, suc, ◌≤◌, ◌<◌, ◌≡◌, ◌≢◌, ◌⊎◌, ◌∙◌, refl, sym, ap, arith, Bool, true, List, [],
  ◌∷◌, length, map, ◌==◌,
}
use net_calc.Words.{success}
use net_calc.Queue.Defs.{Node}
use net_calc.ThreadPool.Defs.{System, max_jobs, begin_destroy}
use net_calc.ThreadPool.Count.{count, one, total, empty_one, finished_one}
use net_calc.ThreadPool.Works.{Works}
use net_calc.ThreadPool.Drain.{Later, Drained}
use net_calc.ThreadPool.Progress.{CanWork}
use net_calc.ThreadPool.Finish.{begin_destroy_finishes}
use net_calc.ThreadPool.Feed.{Feeds, Feeds-Reachable, Feeds-InService, NotNull}
use net_calc.FileHandler.Directory.{Job, parsed, directory_parse}
use net_calc.FileHandler.Jobs.{Task, entry_of, AllGood, Solves, AllSolve}
use net_calc.FileHandler.Parse.{directory_parse_solves}

-- What `directory_parse` passes to `threadpool_add_job` for its job number `i`: `parse_file`, whose
-- pointer is 1 here, no destructor, and the arguments, whose pointer is `i + 1`.
abbrev pub node_of : ℕ → Node
node_of i = record { del_f = 0; task = 1; arg = suc i }

abbrev pub nodes_from : ℕ → List Job → List Node
nodes_from i [] = []
nodes_from i (job ∷ jobs) = node_of i ∷ nodes_from (suc i) jobs

abbrev pub is_job : ℕ → Node → Bool
is_job i node = node.arg == suc i

-- Each job, from number `i` on, has been run exactly once, and solves its file.
abbrev pub EachSolved : ℕ → List Task → List Job → List Node → Type 0
EachSolved i [] [] ran = Unit {0}
EachSolved i [] (job ∷ jobs) ran = ⊥
EachSolved i (t ∷ tasks) [] ran = ⊥
EachSolved i (t ∷ tasks) (job ∷ jobs) ran =
    (count (is_job i) ran ≡ 1) × Solves t job × EachSolved (suc i) tasks jobs ran

nodes-NotNull : (i : ℕ) (jobs : List Job) → NotNull (nodes_from i jobs)
nodes-NotNull i [] = tt
nodes-NotNull i (job ∷ jobs) = (λ e. absurd (omega (arith, e)), nodes-NotNull (suc i) jobs)

length-nodes_from : (i : ℕ) (jobs : List Job) → length (nodes_from i jobs) ≡ length jobs
length-nodes_from i [] = refl
length-nodes_from i (job ∷ jobs) = ap suc (length-nodes_from (suc i) jobs)

length-AllSolve :
    (tasks : List Task) (jobs : List Job) → AllSolve tasks jobs → length jobs ≡ length tasks
length-AllSolve [] [] all = refl
length-AllSolve [] (job ∷ jobs) all = absurd all
length-AllSolve (t ∷ tasks) [] all = absurd all
length-AllSolve (t ∷ tasks) (job ∷ jobs) (_, all) = ap suc (length-AllSolve tasks jobs all)

other : (i j : ℕ) → i < j → one (is_job i) (node_of j) ≡ 0
other i j h = ground arith

other' : (i j : ℕ) → j < i → one (is_job i) (node_of j) ≡ 0
other' i j h = ground arith

itself : (i : ℕ) → one (is_job i) (node_of i) ≡ 1
itself i = ground arith

count-below : (i k : ℕ) (jobs : List Job) → i < k → count (is_job i) (nodes_from k jobs) ≡ 0
count-below i k [] h = refl
count-below i k (job ∷ jobs) h =
    omega (arith, other i k h, count-below i (suc k) jobs (omega arith))

each_solved :
    (i : ℕ) (tasks : List Task) (jobs : List Job) (ran : List Node)
    → AllSolve tasks jobs
    → ((j : ℕ) → i ≤ j → count (is_job j) ran ≡ count (is_job j) (nodes_from i jobs))
    → EachSolved i tasks jobs ran
each_solved i [] [] ran all counted = tt
each_solved i [] (job ∷ jobs) ran all counted = absurd all
each_solved i (t ∷ tasks) [] ran all counted = absurd all
each_solved i (t ∷ tasks) (job ∷ jobs) ran (solves, all) counted = (
  omega (arith, counted i (omega arith), itself i, count-below i (suc i) jobs (omega arith)),
  solves,
  each_solved (suc i) tasks jobs ran all
      (λ j h. omega (arith, counted j (omega arith), other' j i h)),
)

-- All threads have left their loops, and each job has been run.
abbrev pub Done : ℕ → List Task → List Job → System → Type 0
Done n tasks jobs u = (total finished_one u.workers ≡ n) × EachSolved 0 tasks jobs u.ran

-- Let a directory have only entries that are not hidden and can be opened, no more of them than
-- the queue has places (200), each with a file that arrives as one piece of an accepted header,
-- which promises fewer than 2 ^ 31 equations, and of equations that are solved by the records
-- beside them; let the solved files be opened and take every write, with descriptors of at least
-- 2 on both sides; and let directory_parse return SUCCESS at a signal. If its jobs are given to
-- a new pool of n threads one after the other, while memory does not run out and nobody shuts
-- the pool down, and threadpool_destroy is then called when no call of threadpool_add_job is
-- under way and no thread is between finding the queue empty and looking at active (or the queue
-- is empty), then in every state that follows by steps of the threads and of other callers a
-- thread, a due signal or the broadcast can go on, or else all n threads have left their loops,
-- and each job has been run exactly once and, run, writes the solved file of its entry behind
-- the header that directory_parse wrote, and closes it; and from every such state some run of
-- the threads, the signals and the broadcast alone leads to such an end.
pub file_calculator_solves :
    (n : ℕ) (tasks : List Task) (flag : ℕ) (flags : List ℕ) (jobs : List Job) (s t : System)
    → AllGood tasks
    → flag ≢ 0
    → length tasks ≤ max_jobs
    → directory_parse true (map entry_of tasks) (flag ∷ flags) ≡ parsed success jobs
    → Feeds n (nodes_from 0 jobs) s
    → s.adding ≡ []
    → (total empty_one s.workers ≡ 0) ⊎ (s.pool.job_pool.size ≡ 0)
    → Later (begin_destroy s) t
    → (CanWork t ⊎ Done n tasks jobs t)
      × ((k : ℕ) × (u : System) × Works k t u × Done n tasks jobs u)
file_calculator_solves n tasks flag flags jobs s t good signal few parse feeds no_adds calm runs =
    let (jobs', parse', all) = directory_parse_solves tasks flag flags good signal in
    let all' = subst (AllSolve tasks) (same_jobs jobs' jobs (sym parse' ∙ parse)) all in
    let inv =
      Feeds-InService n (nodes_from 0 jobs) s feeds
        (omega (arith, few, length-nodes_from 0 jobs, length-AllSolve tasks jobs all'))
        (nodes-NotNull 0 jobs) in
    let (going, (k, u, ws, drained)) =
      begin_destroy_finishes n s t (Feeds-Reachable n (nodes_from 0 jobs) s feeds) inv.on no_adds
        inv.unused calm runs in
    let done : (v : System) → Drained n s.accepted v → Done n tasks jobs v = λ v d. (
      d.all_finished,
      each_solved 0 tasks jobs v.ran all'
          (λ j h. d.each_ran (is_job j) ∙ ap (count (is_job j)) inv.taken_in),
    ) in
    (elim going [ inl can ↦ inl can | inr d ↦ inr (done t d) ], (k, u, ws, done u drained))
  where
    same_jobs : (a b : List Job) → parsed success a ≡ parsed success b → a ≡ b
    same_jobs a b e = cc
