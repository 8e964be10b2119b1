-- ===== src/ThreadPool/Kept.antt =====
-- Every state that the threads reach is sound.
use net_calc.Prelude.{◌≡◌, ℕ, ◌<◌, ◌∙◌, inl, inr, refl, sym, arith, some, []}
use net_calc.Prelude.{◌==◌, if◌then◌else◌, length-set, length-replicate, set, Bool-cases, subst}
use net_calc.Queue.Defs.{Queue, queue_dequeue}
use net_calc.Queue.Refine.{Holds, size-Holds}
use net_calc.ThreadPool.Defs.{
  max_jobs, System, waiting, asleep, running, deciding, saw_empty, finished, Phase, Work,
  locked_sleep, locked_take, job_done, looked_size, looked_active, signal_one, signal_none,
  broadcast, Step, work, begin_add, locked_add, spurious, shutdown, destroy, Reachable, at_start,
  next, new_system, enqueue_job, add_job, take_job, run_job, sleep, look_size, look_active, wake,
  broadcast_all, threadpool_shutdown, begin_destroy,
}
use net_calc.ThreadPool.Count.{
  total, total-set, total-replicate, total_parts, asleep_one, finished_one, awake_one, if-value,
  total-woken, length-woken,
}
use net_calc.ThreadPool.Order.{from_start}
use net_calc.ThreadPool.Sound.{
  Sound, Phases, idle_pool, move-Sound, take-Sound, none_asleep, Phases-active, Phases-closing,
  leave-Sound,
}

Work-Sound : (n : ℕ) (s t : System) → Work s t → Sound n s → Sound n t
unfolding sleep take_job run_job look_size look_active wake broadcast_all
Work-Sound n _ _ (locked_sleep s i e q) inv =
    let (empty, active) = idle_pool s.pool.job_pool.size s.pool.active q in
    record {
      threads = length-set s.workers i asleep ∙ inv.threads;
      some_thread = inv.some_thread;
      flag = inv.flag;
      stays = λ a. omega (arith, inv.stays a, total-set finished_one s.workers i waiting asleep e);
      alert = λ a. inl empty;
      phases = Phases-active s.phase s.pool.active _ _ active inv.phases;
    }
Work-Sound n _ _ (locked_take s i e q) inv =
    take-Sound n s i e inv (queue_dequeue (some s.pool.job_pool))
Work-Sound n _ _ (job_done s i node e) inv =
    move-Sound n s i (running node) deciding s.signalling s.pool.job_pool s.taken _ e refl refl inv
Work-Sound n _ _ (looked_size s i e) inv =
    move-Sound n s i deciding (if s.pool.job_pool.size == 0 then saw_empty else waiting)
      s.signalling s.pool.job_pool s.taken s.ran e
      (if-value finished_one 0 (s.pool.job_pool.size == 0) saw_empty waiting refl refl)
      (if-value awake_one 1 (s.pool.job_pool.size == 0) saw_empty waiting refl refl) inv
Work-Sound n _ _ (looked_active s i e) inv = elim (Bool-cases (s.pool.active == 0)) [
  | inl off ↦
      subst
        (λ b. Sound n (record s { workers = set s.workers i (if b then finished else waiting) }))
        (sym off) (leave-Sound n s i e off inv)
  | inr on ↦
      subst
        (λ b. Sound n (record s { workers = set s.workers i (if b then finished else waiting) }))
        (sym on)
        (move-Sound n s i saw_empty waiting s.signalling s.pool.job_pool s.taken s.ran e refl refl
          inv)
]
Work-Sound n _ _ (signal_one s i k q e) inv =
    move-Sound n s i asleep waiting k s.pool.job_pool s.taken s.ran e refl refl inv
Work-Sound n _ _ (signal_none s k e q) inv = record {
  threads = inv.threads;
  some_thread = inv.some_thread;
  flag = inv.flag;
  stays = inv.stays;
  alert = λ a. inr (
      inr (
        omega (
          arith,
          none_asleep s q,
          inv.stays a,
          inv.some_thread,
          inv.threads,
          total_parts s.workers,
        )));
  phases = inv.phases;
}
Work-Sound n _ _ (broadcast s e) inv =
    let off = Phases-closing s.phase s.pool.active _ e inv.phases in
    record {
      threads = length-woken s.workers ∙ inv.threads;
      some_thread = inv.some_thread;
      flag = inv.flag;
      stays = λ a. absurd (omega arith);
      alert = λ a. absurd (omega arith);
      phases = inr (inr (refl, off, (total-woken s.workers).0));
    }

Phases-shutdown : (ph : Phase) (a k : ℕ) → Phases ph a k → Phases ph 0 k
Phases-shutdown ph a k (inl p) = inl p
Phases-shutdown ph a k (inr (inl (p, q))) = inr (inl (p, refl))
Phases-shutdown ph a k (inr (inr (p, q, r))) = inr (inr (p, refl, r))

Step-Sound : (n : ℕ) (s t : System) → Step s t → Sound n s → Sound n t
unfolding add_job enqueue_job wake threadpool_shutdown begin_destroy
Step-Sound n _ _ (work s t w) inv = Work-Sound n s t w inv
Step-Sound n _ _ (begin_add s node q) inv = record {
  threads = inv.threads;
  some_thread = inv.some_thread;
  flag = inv.flag;
  stays = inv.stays;
  alert = inv.alert;
  phases = inv.phases;
}
Step-Sound n _ _ (locked_add s allocated node before after q) inv = record {
  threads = inv.threads;
  some_thread = inv.some_thread;
  flag = inv.flag;
  stays = inv.stays;
  alert = λ a. inr (inl (omega arith));
  phases = inv.phases;
}
Step-Sound n _ _ (spurious s i e) inv =
    move-Sound n s i asleep waiting s.signalling s.pool.job_pool s.taken s.ran e refl refl inv
Step-Sound n _ _ (shutdown s) inv = record {
  threads = inv.threads;
  some_thread = inv.some_thread;
  flag = omega arith;
  stays = λ a. absurd (omega arith);
  alert = λ a. absurd (omega arith);
  phases = Phases-shutdown s.phase s.pool.active (total asleep_one s.workers) inv.phases;
}
Step-Sound n _ _ (destroy s e) inv = record {
  threads = inv.threads;
  some_thread = inv.some_thread;
  flag = omega arith;
  stays = λ a. absurd (omega arith);
  alert = λ a. absurd (omega arith);
  phases = inr (inl (refl, refl));
}

pub Reachable-Sound : (n : ℕ) (s : System) → Reachable n s → Sound n s
Reachable-Sound n s (at_start _ e) = from_start (Sound n) n initial s e
  where
    initial : (q : Queue) → Holds q [] → q.capacity ≡ max_jobs → 0 < n → Sound n (new_system n q)
    initial q h room some_thread = record {
      threads = length-replicate n waiting;
      some_thread = some_thread;
      flag = omega arith;
      stays = λ a. total-replicate finished_one n waiting refl;
      alert = λ a. inl (size-Holds q [] h);
      phases = inl refl;
    }
Reachable-Sound n t (next s _ r step) = Step-Sound n s t step (Reachable-Sound n s r)
