-- ===== src/ThreadPool/Created.antt =====
-- When `threadpool_create` comes to a pool.
use net_calc.Prelude.{ℕ, zero, suc, ◌+◌, Bool, true, ◌&&◌, Option, none, replicate}
use net_calc.Queue.Defs.{Queue}
use net_calc.ThreadPool.Defs.{System, max_jobs}
use net_calc.ThreadPool.Create.{Outcomes}

abbrev pub all_below : (ℕ → Bool) → ℕ → ℕ → Bool
all_below f zero iter = true
all_below f (suc left) iter = let rest = all_below f left (iter + 1) in f iter && rest

-- Every call that `threadpool_create` makes for so many threads succeeds.
abbrev pub all_succeed : ℕ → Outcomes → Bool
all_succeed thread_count o =
    o.pool_allocated
    && o.queue_allocated
    && o.items_allocated
    && o.threads_allocated
    && all_below o.thread_created thread_count 0

abbrev no_system : Option System
no_system = none

abbrev pub empty : Queue
empty = record {
  capacity = max_jobs;
  size = 0;
  front = 0;
  rear = 0;
  items = replicate max_jobs none;
}

-- The pool is there, and the allocations behind it succeed or not.
abbrev pub outcomes : (ℕ → Bool) → Bool → Bool → Bool → Bool → Outcomes
outcomes f a b c d = record {
  pool_allocated = a;
  queue_allocated = b;
  items_allocated = c;
  threads_allocated = d;
  thread_created = f;
}
