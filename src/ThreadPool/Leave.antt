-- ===== src/ThreadPool/Leave.antt =====
-- The invariant behind the shutdown: no thread leaves the loop with a job in the queue.
use net_calc.Prelude.{
  ℕ, zero, suc, ◌+◌, ◌≤◌, ◌<◌, ◌≡◌, ◌≢◌, ◌⊎◌, ◌∙◌, inl, inr, refl, sym, subst, arith, true, false,
  ◌&&◌, not, some, List, [], ◌∷◌, ◌++◌, map, ◌==◌, if◌then◌else◌, get_elem?, set,
}
use net_calc.Queue.Defs.{Node, Queue}
use net_calc.Queue.Fifo
use net_calc.Queue.Refine.{size-Holds}
use net_calc.Queue.Remove.{queue_dequeue_refines}
use net_calc.ThreadPool.Defs.{
  System, Pool, Worker, woken, waiting, asleep, running, deciding, saw_empty, finished, in_use,
  Work, locked_sleep, locked_take, job_done, looked_size, looked_active, signal_one, signal_none,
  broadcast, Step, work, begin_add, locked_add, spurious, shutdown, destroy, passes_guard,
  take_result, take_job, run_job, sleep, look_size, look_active, wake, broadcast_all,
  threadpool_shutdown,
}
use net_calc.ThreadPool.Count.{empty_one, total-woken, total, total-set, finished_one}
use net_calc.ThreadPool.Order.{InOrder}

-- The threads that have looked at an empty queue and those that have left the loop.
abbrev pub leaving : List Worker → ℕ
leaving workers = total finished_one workers + total empty_one workers

-- The pool is shut down, no call of `threadpool_add_job` is under way, and no thread leaves jobs
-- behind. `accepted` is what had been accepted when the pool was shut down.
pub record IsDraining (accepted : List Node) (s : System) : Type 0 where
  pub off : s.pool.active ≡ 0
  pub no_adds : s.adding ≡ []
  pub begun : s.phase ≢ in_use
  pub kept : s.accepted ≡ accepted
  pub none_left : 0 < leaving s.workers → s.pool.job_pool.size ≡ 0

empty_woken :
    (workers : List Worker) → total empty_one (map woken workers) ≡ total empty_one workers
empty_woken [] = refl
empty_woken (w ∷ workers) = omega (arith, one_woken w, empty_woken workers)
  where
    one_woken : (w : Worker) → empty_one (woken w) ≡ empty_one w
    one_woken waiting = refl
    one_woken asleep = refl
    one_woken (running node) = refl
    one_woken deciding = refl
    one_woken saw_empty = refl
    one_woken finished = refl

-- A thread moves, and is about to leave after it only if it was so before or the queue is empty.
move-IsDraining :
    (accepted : List Node) (s : System) (i : ℕ) (w w' : Worker) (signalling : ℕ) (q : Queue)
    (taken ran : List Node)
    → get_elem? s.workers i ≡ some w
    → (finished_one w' + empty_one w' ≤ finished_one w + empty_one w) ⊎ (q.size ≡ 0)
    → q.size ≤ s.pool.job_pool.size
    → IsDraining accepted s
    → IsDraining accepted (record s {
      pool = record { job_pool = q; active = s.pool.active };
      workers = set s.workers i w';
      signalling = signalling;
      taken = taken;
      ran = ran;
    })
move-IsDraining accepted s i w w' signalling q taken ran e leaves smaller inv = record {
  off = inv.off;
  no_adds = inv.no_adds;
  begun = inv.begun;
  kept = inv.kept;
  none_left = λ p. elim leaves [
    | inr empty ↦ empty
    | inl fewer ↦ omega (
      arith,
      smaller,
      inv.none_left (
          omega (
            arith,
            fewer,
            p,
            total-set finished_one s.workers i w w' e,
            total-set empty_one s.workers i w w' e,
          )),
    )
  ];
}

awake_when_off : (size active : ℕ) → active ≡ 0 → not (size == 0 && active == 1) ≡ false → ⊥
awake_when_off size active e f = ground arith

take-IsDraining :
    (accepted : List Node) (s : System) (i : ℕ)
    → get_elem? s.workers i ≡ some waiting
    → InOrder s
    → IsDraining accepted s
    → IsDraining accepted (take_job i s)
unfolding take_job Fifo.pop
take-IsDraining accepted s i e ([], h, split) inv =
    let (q, dequeued, _, h') = queue_dequeue_refines s.pool.job_pool [] h in
    subst (λ r. IsDraining accepted (take_result i s r)) (sym dequeued)
      (move-IsDraining accepted s i waiting deciding s.signalling q s.taken s.ran e
        (inl (omega arith)) (omega (arith, size-Holds q [] h')) inv)
take-IsDraining accepted s i e (job ∷ jobs, h, split) inv =
    let (q, dequeued, _, h') = queue_dequeue_refines s.pool.job_pool (job ∷ jobs) h in
    subst (λ r. IsDraining accepted (take_result i s r)) (sym dequeued)
      (move-IsDraining accepted s i waiting (running job) s.signalling q _ s.ran e
        (inl (omega arith))
        (omega (arith, size-Holds q jobs h', size-Holds s.pool.job_pool (job ∷ jobs) h)) inv)

Work-IsDraining :
    (accepted : List Node) (s t : System)
    → Work s t
    → InOrder s
    → IsDraining accepted s
    → IsDraining accepted t
unfolding sleep run_job look_size look_active wake broadcast_all
Work-IsDraining a _ _ (locked_sleep s i e q) order inv =
    absurd (awake_when_off s.pool.job_pool.size s.pool.active inv.off q)
Work-IsDraining a _ _ (locked_take s i e q) order inv = take-IsDraining a s i e order inv
Work-IsDraining a _ _ (job_done s i node e) order inv =
    move-IsDraining a s i (running node) deciding s.signalling s.pool.job_pool s.taken _ e
      (inl (omega arith)) (omega arith) inv
Work-IsDraining a _ _ (looked_size s i e) order inv =
    move-IsDraining a s i deciding _ s.signalling s.pool.job_pool s.taken s.ran e
      (size_look s.pool.job_pool.size) (omega arith) inv
  where
    size_look :
        (size : ℕ)
        → (finished_one (if size == 0 then saw_empty else waiting)
              + empty_one (if size == 0 then saw_empty else waiting)
            ≤ 0)
          ⊎ (size ≡ 0)
    size_look zero = inr refl
    size_look (suc size) = inl (ground arith)
Work-IsDraining a _ _ (looked_active s i e) order inv =
    move-IsDraining a s i saw_empty _ s.signalling s.pool.job_pool s.taken s.ran e
      (inl (active_look s.pool.active)) (omega arith) inv
  where
    active_look :
        (active : ℕ)
        → finished_one (if active == 0 then finished else waiting)
            + empty_one (if active == 0 then finished else waiting)
          ≤ 1
    active_look zero = omega arith
    active_look (suc active) = ground arith
Work-IsDraining a _ _ (signal_one s i k q e) order inv =
    move-IsDraining a s i asleep waiting k s.pool.job_pool s.taken s.ran e (inl (omega arith))
      (omega arith) inv
Work-IsDraining a _ _ (signal_none s k e q) order inv = record {
  off = inv.off;
  no_adds = inv.no_adds;
  begun = inv.begun;
  kept = inv.kept;
  none_left = inv.none_left;
}
Work-IsDraining a _ _ (broadcast s e) order inv = record {
  off = inv.off;
  no_adds = inv.no_adds;
  begun = λ p. cc;
  kept = inv.kept;
  none_left = λ p. inv.none_left (omega (arith, p, total-woken s.workers, empty_woken s.workers));
}

refused : (pool : Pool) (node : Node) → pool.active ≡ 0 → passes_guard pool node ≡ true → ⊥
refused pool node off e = ground arith

no_member : (before after : List Node) (node : Node) → [] ≡ before ++ (node ∷ after) → ⊥
no_member [] after node e = cc
no_member (n ∷ before) after node e = cc

pub Step-IsDraining :
    (accepted : List Node) (s t : System)
    → Step s t
    → InOrder s
    → IsDraining accepted s
    → IsDraining accepted t
unfolding wake threadpool_shutdown
Step-IsDraining a _ _ (work s t w) order inv = Work-IsDraining a s t w order inv
Step-IsDraining a _ _ (begin_add s node e) order inv = absurd (refused s.pool node inv.off e)
Step-IsDraining a _ _ (locked_add s allocated node before after e) order inv =
    absurd (no_member before after node (sym inv.no_adds ∙ e))
Step-IsDraining a _ _ (spurious s i e) order inv =
    move-IsDraining a s i asleep waiting s.signalling s.pool.job_pool s.taken s.ran e
      (inl (omega arith)) (omega arith) inv
Step-IsDraining a _ _ (shutdown s) order inv = record {
  off = refl;
  no_adds = inv.no_adds;
  begun = inv.begun;
  kept = inv.kept;
  none_left = inv.none_left;
}
Step-IsDraining a _ _ (destroy s e) order inv = absurd (inv.begun e)
