-- ===== src/ThreadPool/Measure.antt =====
-- The threads come to rest: each piece of work uses up some of a measure.
use net_calc.Prelude.{
  ℕ, zero, suc, ◌+◌, ◌*◌, ◌≤◌, ◌<◌, ◌≡◌, sym, ap, subst, arith, Bool, true, false, ◌&&◌, not, some,
  List, [], ◌∷◌, map, ◌==◌, if◌then◌else◌, length, length-set, get_elem?, set,
}
use net_calc.Queue.Defs.{Node}
use net_calc.Queue.Fifo
use net_calc.Queue.Refine.{size-Holds}
use net_calc.Queue.Remove.{queue_dequeue_refines}
use net_calc.ThreadPool.Defs.{
  System, Pool, Worker, woken, waiting, asleep, running, deciding, saw_empty, finished, Phase,
  in_use, closing, joining, Work, locked_sleep, locked_take, job_done, looked_size, looked_active,
  signal_one, signal_none, broadcast, may_take, take_result, take_job, run_job, sleep, look_size,
  look_active, wake, broadcast_all,
}
use net_calc.ThreadPool.Count.{total, total-set}
use net_calc.ThreadPool.Order.{InOrder}
use net_calc.ThreadPool.Sound.{Sound}

-- What a thread has to do yet; less if the pool is closed: shut down and without jobs.
abbrev cost : Bool → Worker → ℕ
cost c waiting = 3
cost c asleep = 1
cost c (running node) = 6
cost true deciding = 2
cost false deciding = 5
cost true saw_empty = 1
cost false saw_empty = 4
cost c finished = 0

abbrev pub is_closed : Pool → Bool
is_closed pool = pool.job_pool.size == 0 && pool.active == 0

abbrev pub phase_cost : Phase → ℕ → ℕ
phase_cost in_use n = 0
phase_cost closing n = 2 * n + 1
phase_cost joining n = 0

abbrev pub measure : System → ℕ
measure s =
    4 * s.pool.job_pool.size
    + total (cost (is_closed s.pool)) s.workers
    + (3 * s.signalling + phase_cost s.phase (length s.workers))

cost-le : (c : Bool) (w : Worker) → (cost c w ≤ cost false w) × (cost c w ≤ 6)
cost-le true waiting = omega arith
cost-le true asleep = omega arith
cost-le true (running node) = omega arith
cost-le true deciding = omega arith
cost-le true saw_empty = omega arith
cost-le true finished = omega arith
cost-le false waiting = omega arith
cost-le false asleep = omega arith
cost-le false (running node) = omega arith
cost-le false deciding = omega arith
cost-le false saw_empty = omega arith
cost-le false finished = omega arith

pub total-cost-le :
    (c : Bool) (workers : List Worker)
    → (total (cost c) workers ≤ total (cost false) workers)
      × (total (cost c) workers ≤ 6 * length workers)
total-cost-le c [] = omega arith
total-cost-le c (w ∷ workers) = omega (arith, cost-le c w, total-cost-le c workers)

total-cost-woken :
    (c : Bool) (workers : List Worker)
    → total (cost c) (map woken workers) ≤ total (cost c) workers + 2 * length workers
total-cost-woken c [] = omega arith
total-cost-woken c (w ∷ workers) = omega (arith, one_woken w, total-cost-woken c workers)
  where
    one_woken : (w : Worker) → cost c (woken w) ≤ cost c w + 2
    one_woken waiting = omega arith
    one_woken asleep = omega arith
    one_woken (running node) = omega arith
    one_woken deciding = omega arith
    one_woken saw_empty = omega arith
    one_woken finished = omega arith

closed_pool : (size active : ℕ) → size ≡ 0 → active ≡ 0 → (size == 0 && active == 0) ≡ true
closed_pool size active e f = ground arith

open_pool : (size active : ℕ) → 0 < size → (size == 0 && active == 0) ≡ false
open_pool size active e = ground arith

takes_inactive :
    (size active : ℕ) → size ≡ 0 → active ≤ 1 → not (size == 0 && active == 1) ≡ true → active ≡ 0
takes_inactive size active e f g = ground arith

take-measure :
    (n : ℕ) (s : System) (i : ℕ)
    → get_elem? s.workers i ≡ some waiting
    → may_take s.pool ≡ true
    → Sound n s
    → InOrder s
    → measure (take_job i s) < measure s
unfolding take_job Fifo.pop
take-measure n s i e q inv ([], h, split) =
    let (queue, dequeued, _, h') = queue_dequeue_refines s.pool.job_pool [] h in
    let none_left = size-Holds s.pool.job_pool [] h in
    let off = takes_inactive s.pool.job_pool.size s.pool.active none_left inv.flag q in
    subst (λ r. measure (take_result i s r) < measure s) (sym dequeued)
      (omega (
        arith,
        none_left,
        size-Holds queue [] h',
        ap (λ c. total (cost c) s.workers)
            (closed_pool s.pool.job_pool.size s.pool.active none_left off),
        ap (λ c. total (cost c) (set s.workers i deciding))
            (closed_pool queue.size s.pool.active (size-Holds queue [] h') off),
        total-set (cost true) s.workers i waiting deciding e,
        ap (phase_cost s.phase) (length-set s.workers i deciding),
      ))
take-measure n s i e q inv (job ∷ jobs, h, split) =
    let (queue, dequeued, _, h') = queue_dequeue_refines s.pool.job_pool (job ∷ jobs) h in
    subst (λ r. measure (take_result i s r) < measure s) (sym dequeued)
      (omega (
        arith,
        size-Holds s.pool.job_pool (job ∷ jobs) h,
        size-Holds queue jobs h',
        ap (λ c. total (cost c) s.workers)
            (open_pool s.pool.job_pool.size s.pool.active
              (omega (arith, size-Holds s.pool.job_pool (job ∷ jobs) h))),
        total-set (cost false) s.workers i waiting (running job) e,
        total-cost-le (queue.size == 0 && s.pool.active == 0) (set s.workers i (running job)),
        ap (phase_cost s.phase) (length-set s.workers i (running job)),
      ))

-- A thread goes to a place of lower cost.
moved :
    (s : System) (i : ℕ) (w w' : Worker) (c : Bool)
    → get_elem? s.workers i ≡ some w
    → cost c w' < cost c w
    → total (cost c) (set s.workers i w')
        + (3 * s.signalling + phase_cost s.phase (length (set s.workers i w')))
      < total (cost c) s.workers + (3 * s.signalling + phase_cost s.phase (length s.workers))
moved s i w w' c e less = omega (
  arith,
  less,
  total-set (cost c) s.workers i w w' e,
  ap (phase_cost s.phase) (length-set s.workers i w'),
)

cost-running : (c : Bool) (node : Node) → cost c deciding < cost c (running node)
cost-running true node = omega arith
cost-running false node = omega arith

cost-size :
    (size active : ℕ)
    → cost (size == 0 && active == 0) (if size == 0 then saw_empty else waiting)
      < cost (size == 0 && active == 0) deciding
cost-size zero zero = omega arith
cost-size zero (suc active) = ground arith
cost-size (suc size) active = ground arith

cost-active :
    (size active : ℕ)
    → cost (size == 0 && active == 0) (if active == 0 then finished else waiting)
      < cost (size == 0 && active == 0) saw_empty
cost-active zero zero = omega arith
cost-active (suc size) zero = ground arith
cost-active size (suc active) = ground arith

pub Work-measure : (n : ℕ) (s t : System) → Work s t → Sound n s → InOrder s → measure t < measure s
unfolding sleep run_job look_size look_active wake broadcast_all
Work-measure n _ _ (locked_sleep s i e q) inv order =
    omega (arith, moved s i waiting asleep (is_closed s.pool) e (omega arith))
Work-measure n _ _ (locked_take s i e q) inv order = take-measure n s i e q inv order
Work-measure n _ _ (job_done s i node e) inv order = omega (
  arith,
  moved s i (running node) deciding (is_closed s.pool) e (cost-running (is_closed s.pool) node),
)
Work-measure n _ _ (looked_size s i e) inv order = omega (
  arith,
  moved s i deciding _ (is_closed s.pool) e (cost-size s.pool.job_pool.size s.pool.active),
)
Work-measure n _ _ (looked_active s i e) inv order = omega (
  arith,
  moved s i saw_empty _ (is_closed s.pool) e (cost-active s.pool.job_pool.size s.pool.active),
)
Work-measure n _ _ (signal_one s i k q e) inv order = omega (
  arith,
  q,
  total-set (cost (is_closed s.pool)) s.workers i asleep waiting e,
  ap (phase_cost s.phase) (length-set s.workers i waiting),
)
Work-measure n _ _ (signal_none s k e q) inv order = omega (arith, e)
Work-measure n _ _ (broadcast s e) inv order = omega (
  arith,
  ap (λ ph. phase_cost ph (length s.workers)) e,
  total-cost-woken (is_closed s.pool) s.workers,
)
