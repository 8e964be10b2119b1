-- ===== src/ThreadPool/Create.antt =====
-- `threadpool_create`, `failed_start` and the end of `threadpool_destroy` of
-- 4_ThreadCalc/src/threadpool.c, with what the calls of the C library and of pthreads return as
-- arguments, and those that make or release something written down in their order.
use net_calc.Prelude.{
  ℕ, zero, suc, ◌+◌, Bool, true, false, Option, none, some, List, [], ◌∷◌, ◌++◌, ◌==◌,
  if◌then◌else◌,
}
use net_calc.Queue.Defs.{Queue, queue_new}
use net_calc.ThreadPool.Defs.{System, new_system, max_jobs}

-- What belongs to a pool: the `threadpool_t`, its queue, the array of thread handles, the mutex and
-- the condition.
pub data Piece : Type 0 where
  pool_piece : Piece
  queue_piece : Piece
  handles_piece : Piece
  mutex_piece : Piece
  condition_piece : Piece

pub data Call : Type 0 where
  makes : Piece → Call
  releases : Piece → Call
  starts : ℕ → Call
  joins : ℕ → Call

-- The fields of the `threadpool_t` that `failed_start` reads.
pub record Parts : Type 0 where
  pub thread_count : ℕ
  pub job_pool_p : Option Queue
  pub threads_p : Bool

-- Which allocations succeed, and which call of `pthread_create`.
pub record Outcomes : Type 0 where
  pub pool_allocated : Bool
  pub queue_allocated : Bool
  pub items_allocated : Bool
  pub threads_allocated : Bool
  pub thread_created : ℕ → Bool

pub record Creation : Type 0 where
  pub calls : List Call
  pub pool : Option System

abbrev pub free_queue : Option Queue → List Call
free_queue none = []
free_queue (some q) = releases queue_piece ∷ []

abbrev pub free_threads : Bool → List Call
free_threads false = []
free_threads true = releases handles_piece ∷ []

-- The mutex and the condition stand in the pool, so that their addresses are never NULL.
unfoldable pub failed_start : Parts → List Call
failed_start parts =
    free_queue parts.job_pool_p
    ++ (releases mutex_piece ∷ [])
    ++ free_threads parts.threads_p
    ++ (releases condition_piece ∷ releases pool_piece ∷ [])

abbrev pub fails : List Call → Parts → Creation
fails calls parts = record { calls = calls ++ failed_start parts; pool = none }

abbrev pub next_thread : Bool → ℕ → List Call × Bool → List Call × Bool
next_thread true iter (calls, all) = (starts iter ∷ calls, all)
next_thread false iter rest = ([], false)

-- The loop that starts the threads, and whether it came to its end.
unfoldable pub start_threads : (ℕ → Bool) → ℕ → ℕ → List Call × Bool
start_threads created zero iter = ([], true)
start_threads created (suc left) iter =
    next_thread (created iter) iter (start_threads created left (iter + 1))

abbrev pub started : List Call → Parts → Queue → List Call × Bool → Creation
started calls parts q (more, true) = record {
  calls = calls ++ more;
  pool = some (new_system parts.thread_count q);
}
started calls parts q (more, false) = fails (calls ++ more) parts

abbrev pub five_made : List Call
five_made =
    makes pool_piece
    ∷ makes queue_piece
    ∷ makes handles_piece
    ∷ makes mutex_piece
    ∷ makes condition_piece
    ∷ []

abbrev pub with_queue : ℕ → Outcomes → Option Queue → Creation
with_queue thread_count o none =
    fails (makes pool_piece ∷ [])
      (record { thread_count = thread_count; job_pool_p = none; threads_p = false })
with_queue thread_count o (some q) =
    if o.threads_allocated
    then started five_made
        (record { thread_count = thread_count; job_pool_p = some q; threads_p = true }) q
        (start_threads o.thread_created thread_count 0)
    else fails (makes pool_piece ∷ makes queue_piece ∷ [])
        (record { thread_count = thread_count; job_pool_p = some q; threads_p = false })

unfoldable pub threadpool_create_with : ℕ → Outcomes → Creation
threadpool_create_with thread_count o =
    if thread_count == 0
    then record { calls = []; pool = none }
    else if o.pool_allocated
    then with_queue thread_count o (queue_new o.queue_allocated o.items_allocated max_jobs)
    else record { calls = []; pool = none }

-- The joins of `threadpool_destroy`, which return when the threads have left their loops.
unfoldable pub join_threads : ℕ → ℕ → List Call
join_threads zero iter = []
join_threads (suc left) iter = joins iter ∷ join_threads left (iter + 1)

abbrev pub all_released : List Call
all_released =
    releases mutex_piece
    ∷ releases condition_piece
    ∷ releases queue_piece
    ∷ releases handles_piece
    ∷ releases pool_piece
    ∷ []

-- What `threadpool_destroy` does from the joins on, with its return value: an error of
-- `pthread_mutex_destroy` or `pthread_cond_destroy` ends it there.
unfoldable pub finish_destroy : ℕ → ℕ → ℕ → List Call × ℕ
finish_destroy mutex_err cond_err thread_count =
    if mutex_err == 0
    then (if cond_err == 0
        then (join_threads thread_count 0 ++ all_released, 0)
        else (join_threads thread_count 0 ++ (releases mutex_piece ∷ []), cond_err))
    else (join_threads thread_count 0, mutex_err)
