-- ===== src/ThreadPool/Room.antt =====
-- The room of the queue: the first `max_jobs` jobs are all accepted.
use net_calc.Prelude.{
  ℕ, ◌<◌, ◌≡◌, ◌≢◌, ◌∙◌, sym, ap, subst, arith, Bool, true, false, List, [], ◌∷◌, ◌++◌, length,
  length-append,
}
use net_calc.Queue.Defs.{Node}
use net_calc.Queue.Fifo
use net_calc.Queue.Refine.{size-Holds, queue_enqueue_refines}
use net_calc.Queue.Remove.{queue_dequeue_refines}
use net_calc.ThreadPool.Defs.{
  System, max_jobs, Work, locked_sleep, locked_take, job_done, looked_size, looked_active,
  signal_one, signal_none, broadcast, Step, work, begin_add, locked_add, spurious, shutdown,
  destroy, Reachable, at_start, next, enqueue_job, queue_after, add_job, take_job, take_result,
  run_job, sleep, look_size, look_active, wake, broadcast_all, threadpool_shutdown, begin_destroy,
}
use net_calc.ThreadPool.Order.{InOrder, Reachable-InOrder, from_start, refused, grown_more}

-- The queue keeps the room that it was made with.
abbrev pub Roomy : System → Type 0
Roomy s = s.pool.job_pool.capacity ≡ max_jobs

take-Roomy : (i : ℕ) (s : System) → InOrder s → Roomy s → Roomy (take_job i s)
unfolding take_job
take-Roomy i s (jobs, h, _) room =
    let (q, e, same, _) = queue_dequeue_refines s.pool.job_pool jobs h in
    subst (λ r. Roomy (take_result i s r)) (sym e) (same ∙ room)

add-Roomy :
    (allocated : Bool) (node : Node) (others : List Node) (s : System)
    → InOrder s
    → Roomy s
    → Roomy (add_job allocated node others s)
unfolding add_job enqueue_job
add-Roomy false node others s order room =
    subst (λ o. (queue_after s.pool.job_pool o).capacity ≡ max_jobs)
      (sym (refused s.pool.job_pool node)) room
add-Roomy true node others s (jobs, h, _) room =
    let (q, e, same, _) = queue_enqueue_refines s.pool.job_pool jobs node h in rw e (same ∙ room)

Work-Roomy : (s t : System) → Work s t → InOrder s → Roomy s → Roomy t
unfolding sleep run_job look_size look_active wake broadcast_all
Work-Roomy _ _ (locked_sleep s i e p) order room = room
Work-Roomy _ _ (locked_take s i e p) order room = take-Roomy i s order room
Work-Roomy _ _ (job_done s i node e) order room = room
Work-Roomy _ _ (looked_size s i e) order room = room
Work-Roomy _ _ (looked_active s i e) order room = room
Work-Roomy _ _ (signal_one s i k e q) order room = room
Work-Roomy _ _ (signal_none s k e q) order room = room
Work-Roomy _ _ (broadcast s e) order room = room

Step-Roomy : (s t : System) → Step s t → InOrder s → Roomy s → Roomy t
unfolding wake threadpool_shutdown begin_destroy
Step-Roomy _ _ (work s t w) order room = Work-Roomy s t w order room
Step-Roomy _ _ (begin_add s node p) order room = room
Step-Roomy _ _ (locked_add s allocated node before after p) order room =
    add-Roomy allocated node (before ++ after) s order room
Step-Roomy _ _ (spurious s i e) order room = room
Step-Roomy _ _ (shutdown s) order room = room
Step-Roomy _ _ (destroy s e) order room = room

pub Reachable-Roomy : (n : ℕ) (s : System) → Reachable n s → Roomy s
Reachable-Roomy n s (at_start _ e) = from_start Roomy n (λ q h room l. room) s e
Reachable-Roomy n t (next s _ r step) =
    Step-Roomy s t step (Reachable-InOrder n s r) (Reachable-Roomy n s r)

push_roomy :
    (capacity : ℕ) (jobs : List Node) (node : Node)
    → length jobs < capacity
    → node.arg ≢ 0
    → Fifo.push capacity jobs node ≡ jobs ++ (node ∷ [])
unfolding Fifo.push
push_roomy capacity jobs node room some_arg = ground arith

-- A job with an argument that is not NULL is accepted as long as fewer than `max_jobs` were accepted
-- before it and memory does not run out.
pub add_job-accepted :
    (n : ℕ) (s : System) (node : Node) (others : List Node)
    → Reachable n s
    → length s.accepted < max_jobs
    → node.arg ≢ 0
    → (add_job true node others s).accepted ≡ s.accepted ++ (node ∷ [])
unfolding add_job enqueue_job
add_job-accepted n s node others r few some_arg =
    let (jobs, h, split) = Reachable-InOrder n s r in
    let (q, e, _, h') = queue_enqueue_refines s.pool.job_pool jobs node h in
    let waiting_few : length jobs < s.pool.job_pool.capacity =
      omega (arith, few, ap length split, length-append s.taken jobs, Reachable-Roomy n s r) in
    rw e (
      grown_more s.pool.job_pool q s.accepted node (
        omega (
          arith,
          size-Holds s.pool.job_pool jobs h,
          size-Holds q _ h',
          ap length (push_roomy s.pool.job_pool.capacity jobs node waiting_few some_arg),
          length-append jobs (node ∷ []),
        )))
