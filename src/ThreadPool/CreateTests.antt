-- ===== src/ThreadPool/CreateTests.antt =====
-- Creations of a pool of two threads: one where the second thread does not start, and one that
-- succeeds.
use net_calc.Prelude.{◌≡◌, true, false, none, refl, ltb}
use net_calc.ThreadPool.Create.{
  pool_piece, mutex_piece, Outcomes, threadpool_create_with, start_threads, failed_start,
}
use net_calc.Queue.Defs.{queue_new}
use net_calc.ThreadPool.Created.{outcomes}
use net_calc.ThreadPool.Tally.{tally, making, releasing, starting, joining}
use net_calc.ThreadPool.Release.{Settled, threadpool_create_with-Settled}

abbrev one_starts : Outcomes
one_starts = outcomes (λ i. ltb i 1) true true true true

abbrev no_queue : Outcomes
no_queue = outcomes (λ i. true) true false true true

abbrev all_there : Outcomes
all_there = outcomes (λ i. true) true true true true

threadpool_create_with-Settled_example : Settled 2 (threadpool_create_with 2 one_starts)
threadpool_create_with-Settled_example = threadpool_create_with-Settled 2 one_starts

-- The pool is freed under a thread that runs.
pool_freed_under_thread :
    ((threadpool_create_with 2 one_starts).pool ≡ none)
    × (tally (starting 0) (threadpool_create_with 2 one_starts).calls ≡ 1)
    × (tally (joining 0) (threadpool_create_with 2 one_starts).calls ≡ 0)
    × (tally (releasing pool_piece) (threadpool_create_with 2 one_starts).calls ≡ 1)
unfolding threadpool_create_with start_threads failed_start queue_new
pool_freed_under_thread = (refl, refl, refl, refl)

-- A mutex is destroyed that was not made.
mutex_never_made :
    (tally (making mutex_piece) (threadpool_create_with 2 no_queue).calls ≡ 0)
    × (tally (releasing mutex_piece) (threadpool_create_with 2 no_queue).calls ≡ 1)
unfolding threadpool_create_with start_threads failed_start queue_new
mutex_never_made = (refl, refl)
