-- ===== src/ThreadPool/Defs.antt =====
-- The threads of 4_ThreadCalc/src/threadpool.c as a step relation. A step is what a thread does
-- under the mutex, or one unprotected look at the pool. The calls of `threadpool_create`
-- succeed here; Create has their failures.
use net_calc.Prelude.{
  ℕ, ◌≡◌, Bool, true, ◌&&◌, not, Option, none, some, List, [], ◌∷◌, ◌++◌, map, suc, ◌+◌, ◌≢◌, false,
}
use net_calc.Prelude.{ltb, ◌==◌, if◌then◌else◌, get_elem?, set, replicate}
use net_calc.Queue.Defs.{Node, Queue, queue_new, queue_enqueue, queue_dequeue}

abbrev pub max_jobs : ℕ
max_jobs = 200

-- `active` is 1 or 0.
pub record Pool : Type 0 where
  pub job_pool : Queue
  pub active : ℕ

-- Where a thread is in the loop of `start_thread`: before the mutex, in `pthread_cond_wait`, in the
-- job, behind it, behind a look at the size that showed 0, or out of the loop.
pub data Worker : Type 0 where
  waiting : Worker
  asleep : Worker
  running : Node → Worker
  deciding : Worker
  saw_empty : Worker
  finished : Worker

-- How far `threadpool_destroy` is: not called, behind the shutdown, behind the broadcast.
pub data Phase : Type 0 where
  in_use : Phase
  closing : Phase
  joining : Phase

-- The pool with its threads, the calls of `threadpool_add_job` that have passed the guard, how many
-- have to signal yet, and what has happened: the jobs that the queue has taken, those handed out,
-- and those that were run.
pub record System : Type 0 where
  pub pool : Pool
  pub workers : List Worker
  pub adding : List Node
  pub signalling : ℕ
  pub phase : Phase
  pub accepted : List Node
  pub taken : List Node
  pub ran : List Node

abbrev pub queue_after : Queue → Option Queue → Queue
queue_after q none = q
queue_after q (some q') = q'

-- The guard of `threadpool_add_job`.
abbrev pub passes_guard : Pool → Node → Bool
passes_guard pool node = not (node.task == 0) && not (pool.active == 0)

-- The part under the mutex. The status of `queue_enqueue` is not looked at.
unfoldable pub enqueue_job : Bool → Node → Pool → Pool
enqueue_job allocated node pool = record pool {
  job_pool =
      queue_after pool.job_pool
        (queue_enqueue allocated (some pool.job_pool) node.task node.del_f node.arg).1;
}

-- A job has been taken in if the queue has grown.
abbrev pub grown : Queue → Queue → List Node → Node → List Node
grown before after accepted node =
    if ltb before.size after.size then accepted ++ (node ∷ []) else accepted

unfoldable pub add_job : Bool → Node → List Node → System → System
add_job allocated node others s = record s {
  pool = enqueue_job allocated node s.pool;
  adding = others;
  signalling = s.signalling + 1;
  accepted = grown s.pool.job_pool (enqueue_job allocated node s.pool).job_pool s.accepted node;
}

-- The thread leaves the wait: there is a job or the pool is shut down.
abbrev pub may_take : Pool → Bool
may_take pool = not (pool.job_pool.size == 0 && pool.active == 1)

abbrev pub worker_with : Option Node → Worker
worker_with none = deciding
worker_with (some node) = running node

abbrev pub note_taken : Option Node → List Node → List Node
note_taken none taken = taken
note_taken (some node) taken = taken ++ (node ∷ [])

-- What a thread does behind the wait, up to the unlock.
abbrev pub take_result : ℕ → System → Option Node × Option Queue → System
take_result i s (p_node, q) = record s {
  pool = record { job_pool = queue_after s.pool.job_pool q; active = s.pool.active };
  workers = set s.workers i (worker_with p_node);
  taken = note_taken p_node s.taken;
}

unfoldable pub take_job : ℕ → System → System
take_job i s = take_result i s (queue_dequeue (some s.pool.job_pool))

unfoldable pub run_job : ℕ → Node → System → System
run_job i node s = record s { workers = set s.workers i deciding; ran = s.ran ++ (node ∷ []) }

-- The test behind a job reads the size and then, if it was 0, whether the pool is active, both
-- without the mutex.
unfoldable pub look_size : ℕ → System → System
look_size i s = record s {
  workers = set s.workers i (if s.pool.job_pool.size == 0 then saw_empty else waiting);
}

unfoldable pub look_active : ℕ → System → System
look_active i s = record s {
  workers = set s.workers i (if s.pool.active == 0 then finished else waiting);
}

-- With no job in an active pool the thread waits for the condition.
unfoldable pub sleep : ℕ → System → System
sleep i s = record s { workers = set s.workers i asleep }

unfoldable pub wake : ℕ → System → System
wake i s = record s { workers = set s.workers i waiting }

unfoldable pub threadpool_shutdown : System → System
threadpool_shutdown s = record s { pool = record { job_pool = s.pool.job_pool; active = 0 } }

-- `threadpool_destroy` up to the broadcast, and the broadcast. It returns when every thread is
-- finished.
unfoldable pub begin_destroy : System → System
begin_destroy s = record (threadpool_shutdown s) { phase = closing }

abbrev pub woken : Worker → Worker
woken asleep = waiting
woken waiting = waiting
woken (running node) = running node
woken deciding = deciding
woken saw_empty = saw_empty
woken finished = finished

unfoldable pub broadcast_all : System → System
broadcast_all s = record s { workers = map woken s.workers; phase = joining }

-- What the threads do, and what the calls that are under way have to do yet. A signal wakes a
-- thread that is asleep, if there is one.
pub data Work : System → System → Type 0 where
  locked_sleep :
      (s : System) (i : ℕ)
      → get_elem? s.workers i ≡ some waiting
      → may_take s.pool ≡ false
      → Work s (sleep i s)
  locked_take :
      (s : System) (i : ℕ)
      → get_elem? s.workers i ≡ some waiting
      → may_take s.pool ≡ true
      → Work s (take_job i s)
  job_done :
      (s : System) (i : ℕ) (node : Node)
      → get_elem? s.workers i ≡ some (running node)
      → Work s (run_job i node s)
  looked_size :
      (s : System) (i : ℕ) → get_elem? s.workers i ≡ some deciding → Work s (look_size i s)
  looked_active :
      (s : System) (i : ℕ) → get_elem? s.workers i ≡ some saw_empty → Work s (look_active i s)
  signal_one :
      (s : System) (i k : ℕ)
      → s.signalling ≡ suc k
      → get_elem? s.workers i ≡ some asleep
      → Work s (record (wake i s) { signalling = k })
  signal_none :
      (s : System) (k : ℕ)
      → s.signalling ≡ suc k
      → ((i : ℕ) → get_elem? s.workers i ≢ some asleep)
      → Work s (record s { signalling = k })
  broadcast : (s : System) → s.phase ≡ closing → Work s (broadcast_all s)

-- The same, or a new call, or a wake-up with no signal.
pub data Step : System → System → Type 0 where
  work : (s t : System) → Work s t → Step s t
  begin_add :
      (s : System) (node : Node)
      → passes_guard s.pool node ≡ true
      → Step s (record s { adding = node ∷ s.adding })
  locked_add :
      (s : System) (allocated : Bool) (node : Node) (before after : List Node)
      → s.adding ≡ before ++ (node ∷ after)
      → Step s (add_job allocated node (before ++ after) s)
  spurious : (s : System) (i : ℕ) → get_elem? s.workers i ≡ some asleep → Step s (wake i s)
  shutdown : (s : System) → Step s (threadpool_shutdown s)
  destroy : (s : System) → s.phase ≡ in_use → Step s (begin_destroy s)

abbrev pub new_system : ℕ → Queue → System
new_system thread_count q = record {
  pool = record { job_pool = q; active = 1 };
  workers = replicate thread_count waiting;
  adding = [];
  signalling = 0;
  phase = in_use;
  accepted = [];
  taken = [];
  ran = [];
}

abbrev pub created : ℕ → Option Queue → Option System
created thread_count none = none
created thread_count (some q) = some (new_system thread_count q)

unfoldable pub threadpool_create : ℕ → Option System
threadpool_create thread_count =
    if thread_count == 0 then none else created thread_count (queue_new true true max_jobs)

-- What the threads of a pool of `thread_count` threads can reach.
pub data Reachable (thread_count : ℕ) : System → Type 0 where
  at_start : (s : System) → threadpool_create thread_count ≡ some s → Reachable thread_count s
  next : (s t : System) → Reachable thread_count s → Step s t → Reachable thread_count t
