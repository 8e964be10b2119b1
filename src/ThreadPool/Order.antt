-- ===== src/ThreadPool/Order.antt =====
-- What holds in every state that the threads reach.
use net_calc.Prelude.{
  ℕ, ◌<◌, ◌≡◌, ◌⊎◌, ◌∙◌, inl, inr, refl, sym, ap, subst, arith, Bool, true, false, Option, none,
  some, List, [], ◌∷◌, ◌++◌,
}
use net_calc.Prelude.{◌==◌, length, length-append, append_assoc, Bool-cases}
use net_calc.Queue.Defs.{Node, Queue, queue_enqueue}
use net_calc.Queue.Fifo
use net_calc.Queue.Refine.{Holds, size-Holds, queue_new-Holds, queue_enqueue_refines}
use net_calc.Queue.Remove.{queue_dequeue_refines}
use net_calc.ThreadPool.Defs.{
  System, Pool, Work, locked_sleep, locked_take, job_done, looked_size, looked_active, signal_one,
  signal_none, broadcast, Step, work, begin_add, locked_add, spurious, shutdown, destroy, Reachable,
  at_start, next, threadpool_create, new_system, max_jobs, grown, enqueue_job, queue_after, add_job,
  take_job, take_result, run_job, sleep, look_size, look_active, wake, broadcast_all,
  threadpool_shutdown, begin_destroy,
}

-- The queue holds what has been accepted and not yet handed out, in the order of acceptance.
abbrev pub InOrder : System → Type 0
InOrder s = (jobs : List Node) × Holds s.pool.job_pool jobs × (s.accepted ≡ s.taken ++ jobs)

push-cases :
    (capacity : ℕ) (jobs : List Node) (node : Node)
    → (Fifo.push capacity jobs node ≡ jobs) ⊎ (Fifo.push capacity jobs node ≡ jobs ++ (node ∷ []))
unfolding Fifo.push
push-cases capacity jobs node = elim (Bool-cases (length jobs == capacity)) [
  | inl full ↦ inl (rw full refl)
  | inr room ↦ elim (Bool-cases (node.arg == 0)) [
    | inl null ↦ inl (rw (room, null) refl)
    | inr job ↦ inr (rw (room, job) refl)
  ]
]

pub refused :
    (q : Queue) (node : Node)
    → (queue_enqueue false (some q) node.task node.del_f node.arg).1 ≡ some q
unfolding queue_enqueue
refused q node = ground arith

grown_same :
    (before after : Queue) (accepted : List Node) (node : Node)
    → after.size ≡ before.size
    → grown before after accepted node ≡ accepted
grown_same before after accepted node e = ground arith

pub grown_more :
    (before after : Queue) (accepted : List Node) (node : Node)
    → before.size < after.size
    → grown before after accepted node ≡ accepted ++ (node ∷ [])
grown_more before after accepted node e = ground arith

enqueue-cases :
    (allocated : Bool) (node : Node) (pool : Pool) (jobs : List Node)
    → Holds pool.job_pool jobs
    → (Holds (enqueue_job allocated node pool).job_pool jobs)
      ⊎ (Holds (enqueue_job allocated node pool).job_pool (jobs ++ (node ∷ [])))
unfolding enqueue_job
enqueue-cases false node pool jobs h =
    inl (subst (λ o. Holds (queue_after pool.job_pool o) jobs) (sym (refused pool.job_pool node)) h)
enqueue-cases true node pool jobs h =
    let (q, e, _, h') = queue_enqueue_refines pool.job_pool jobs node h in
    elim (push-cases pool.job_pool.capacity jobs node) [
      | inl same ↦ inl (rw e (subst (Holds q) same h'))
      | inr more ↦ inr (rw e (subst (Holds q) more h'))
    ]

-- The job joins the queue and is noted, or neither.
add_job-InOrder :
    (allocated : Bool) (node : Node) (others : List Node) (s : System)
    → InOrder s
    → InOrder (add_job allocated node others s)
unfolding add_job
add_job-InOrder allocated node others s (jobs, h, split) =
    elim (enqueue-cases allocated node s.pool jobs h) [
      | inl same ↦ (
        jobs,
        same,
        grown_same s.pool.job_pool (enqueue_job allocated node s.pool).job_pool s.accepted node
              (size-Holds _ jobs same ∙ sym (size-Holds s.pool.job_pool jobs h))
            ∙ split,
      )
      | inr more ↦ (
        jobs ++ (node ∷ []),
        more,
        grown_more s.pool.job_pool (enqueue_job allocated node s.pool).job_pool s.accepted node (
              omega (
                arith,
                size-Holds s.pool.job_pool jobs h,
                size-Holds _ (jobs ++ (node ∷ [])) more,
                length-append jobs (node ∷ []),
              ))
            ∙ ap (λ l. l ++ (node ∷ [])) split
            ∙ append_assoc s.taken jobs (node ∷ []),
      )
    ]

take_job-InOrder : (i : ℕ) (s : System) → InOrder s → InOrder (take_job i s)
unfolding take_job Fifo.pop
take_job-InOrder i s ([], h, split) =
    let (q, e, _, h') = queue_dequeue_refines s.pool.job_pool [] h in
    subst (λ r. InOrder (take_result i s r)) (sym e) ([], h', split)
take_job-InOrder i s (job ∷ jobs, h, split) =
    let (q, e, _, h') = queue_dequeue_refines s.pool.job_pool (job ∷ jobs) h in
    subst (λ r. InOrder (take_result i s r)) (sym e)
      (jobs, h', split ∙ sym (append_assoc s.taken (job ∷ []) jobs))

Work-InOrder : (s t : System) → Work s t → InOrder s → InOrder t
unfolding sleep run_job look_size look_active wake broadcast_all
Work-InOrder _ _ (locked_sleep s i e p) inv = inv
Work-InOrder _ _ (locked_take s i e p) inv = take_job-InOrder i s inv
Work-InOrder _ _ (job_done s i node e) inv = inv
Work-InOrder _ _ (looked_size s i e) inv = inv
Work-InOrder _ _ (looked_active s i e) inv = inv
Work-InOrder _ _ (signal_one s i k e q) inv = inv
Work-InOrder _ _ (signal_none s k e q) inv = inv
Work-InOrder _ _ (broadcast s e) inv = inv

Step-InOrder : (s t : System) → Step s t → InOrder s → InOrder t
unfolding wake threadpool_shutdown begin_destroy
Step-InOrder _ _ (work s t w) inv = Work-InOrder s t w inv
Step-InOrder _ _ (begin_add s node p) inv = inv
Step-InOrder _ _ (locked_add s allocated node before after p) inv =
    add_job-InOrder allocated node (before ++ after) s inv
Step-InOrder _ _ (spurious s i e) inv = inv
Step-InOrder _ _ (shutdown s) inv = inv
Step-InOrder _ _ (destroy s e) inv = inv

abbrev AtStart : (System → Type 0) → Option System → Type 0
AtStart P none = Unit {0}
AtStart P (some s) = P s

-- What holds with any empty queue holds at the start.
pub from_start :
    (P : System → Type 0) (n : ℕ)
    → ((q : Queue) → Holds q [] → q.capacity ≡ max_jobs → 0 < n → P (new_system n q))
    → (s : System) → threadpool_create n ≡ some s
    → P s
unfolding threadpool_create
from_start P n initial s e = subst (AtStart P) e (elim (Bool-cases (n == 0)) [
  | inl no_thread ↦ rw no_thread tt
  | inr threads ↦
      let (q, made, room, h) = queue_new-Holds max_jobs (λ z. absurd (omega (arith, z))) in
      rw (threads, made) (initial q h room (ground arith))
])

-- In every state that the threads of a new pool can reach, by any interleaving of their steps
-- with calls of threadpool_add_job, threadpool_shutdown and threadpool_destroy, the job queue
-- satisfies its representation invariant and holds the accepted jobs that have not been handed
-- out: the accepted jobs are, in their order, those handed out and then those of the queue.
pub Reachable-InOrder : (n : ℕ) (s : System) → Reachable n s → InOrder s
Reachable-InOrder n s (at_start _ e) = from_start InOrder n (λ q h room l. ([], h, refl)) s e
Reachable-InOrder n t (next s _ r step) = Step-InOrder s t step (Reachable-InOrder n s r)
