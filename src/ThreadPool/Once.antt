-- ===== src/ThreadPool/Once.antt =====
-- No job that was handed out is lost or run twice.
use net_calc.Prelude.{ℕ, ◌+◌, ◌≡◌, refl, arith, Bool, Option, none, some, List, [], ◌∷◌}
use net_calc.Prelude.{◌==◌, if◌then◌else◌, map, get_elem?}
use net_calc.Queue.Defs.{Node, Queue, queue_dequeue}
use net_calc.ThreadPool.Defs.{
  System, Worker, woken, waiting, asleep, saw_empty, running, deciding, finished, Work,
  locked_sleep, locked_take, job_done, looked_size, looked_active, signal_one, signal_none,
  broadcast, Step, work, begin_add, locked_add, spurious, shutdown, destroy, Reachable, at_start,
  next, add_job, take_job, take_result, run_job, sleep, look_size, look_active, wake, broadcast_all,
  threadpool_shutdown, begin_destroy,
}
use net_calc.ThreadPool.Count.{
  count, in_hand, weight, count-append_one, if-value, total-set, total-replicate,
}
use net_calc.ThreadPool.Order.{from_start}

-- Every thread holds what it was handed.
abbrev Balanced : System → Type 0
Balanced s = (p : Node → Bool) → count p s.taken ≡ count p s.ran + in_hand p s.workers

take-Balanced :
    (s : System) (i : ℕ)
    → get_elem? s.workers i ≡ some waiting
    → Balanced s
    → (r : Option Node × Option Queue) → Balanced (take_result i s r)
take-Balanced s i e inv (none, q) p =
    omega (arith, inv p, total-set (weight p) s.workers i waiting deciding e)
take-Balanced s i e inv (some node, q) p = omega (
  arith,
  inv p,
  count-append_one p s.taken node,
  total-set (weight p) s.workers i waiting (running node) e,
)

in_hand-woken :
    (p : Node → Bool) (workers : List Worker) → in_hand p (map woken workers) ≡ in_hand p workers
in_hand-woken p [] = refl
in_hand-woken p (w ∷ workers) = omega (arith, weight-woken w, in_hand-woken p workers)
  where
    weight-woken : (w : Worker) → weight p (woken w) ≡ weight p w
    weight-woken waiting = refl
    weight-woken asleep = refl
    weight-woken (running node) = refl
    weight-woken deciding = refl
    weight-woken saw_empty = refl
    weight-woken finished = refl

Work-Balanced : (s t : System) → Work s t → Balanced s → Balanced t
unfolding sleep take_job run_job look_size look_active wake broadcast_all
Work-Balanced _ _ (locked_sleep s i e q) inv p =
    omega (arith, inv p, total-set (weight p) s.workers i waiting asleep e)
Work-Balanced _ _ (locked_take s i e q) inv p =
    take-Balanced s i e inv (queue_dequeue (some s.pool.job_pool)) p
Work-Balanced _ _ (job_done s i node e) inv p = omega (
  arith,
  inv p,
  count-append_one p s.ran node,
  total-set (weight p) s.workers i (running node) deciding e,
)
Work-Balanced _ _ (looked_size s i e) inv p = omega (
  arith,
  inv p,
  if-value (weight p) 0 (s.pool.job_pool.size == 0) saw_empty waiting refl refl,
  total-set (weight p) s.workers i deciding
      (if s.pool.job_pool.size == 0 then saw_empty else waiting) e,
)
Work-Balanced _ _ (looked_active s i e) inv p = omega (
  arith,
  inv p,
  if-value (weight p) 0 (s.pool.active == 0) finished waiting refl refl,
  total-set (weight p) s.workers i saw_empty (if s.pool.active == 0 then finished else waiting) e,
)
Work-Balanced _ _ (signal_one s i k q e) inv p =
    omega (arith, inv p, total-set (weight p) s.workers i asleep waiting e)
Work-Balanced _ _ (signal_none s k e q) inv p = inv p
Work-Balanced _ _ (broadcast s e) inv p = omega (arith, inv p, in_hand-woken p s.workers)

Step-Balanced : (s t : System) → Step s t → Balanced s → Balanced t
unfolding add_job wake threadpool_shutdown begin_destroy
Step-Balanced _ _ (work s t w) inv p = Work-Balanced s t w inv p
Step-Balanced _ _ (begin_add s node q) inv p = inv p
Step-Balanced _ _ (locked_add s allocated node before after q) inv p = inv p
Step-Balanced _ _ (spurious s i e) inv p =
    omega (arith, inv p, total-set (weight p) s.workers i asleep waiting e)
Step-Balanced _ _ (shutdown s) inv p = inv p
Step-Balanced _ _ (destroy s e) inv p = inv p

Reachable-Balanced : (n : ℕ) (s : System) → Reachable n s → Balanced s
Reachable-Balanced n s (at_start _ e) =
    from_start Balanced n (λ q h room l p. omega (arith, total-replicate (weight p) n waiting refl))
      s e
Reachable-Balanced n t (next s _ r step) = Step-Balanced s t step (Reachable-Balanced n s r)

-- In every state that the threads of a new pool can reach, a job has been handed out as often as
-- it has been run and is being run by a thread, counted by any test on jobs: no job that was
-- handed out is lost or run twice.
pub count-taken :
    (n : ℕ) (s : System) (p : Node → Bool)
    → Reachable n s
    → count p s.taken ≡ count p s.ran + in_hand p s.workers
count-taken n s p r = Reachable-Balanced n s r p
