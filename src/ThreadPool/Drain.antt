-- ===== src/ThreadPool/Drain.antt =====
-- What `threadpool_destroy` leaves: every accepted job has been run when the last thread ends.
use net_calc.Prelude.{ℕ, ◌≡◌, ◌⊎◌, inl, inr, refl, ap, arith, Bool, List, []}
use net_calc.Queue.Defs.{Node}
use net_calc.ThreadPool.Defs.{
  System, in_use, Step, destroy, Reachable, next, threadpool_shutdown, begin_destroy,
}
use net_calc.ThreadPool.Count.{empty_one, count, total, total_parts, finished_one}
use net_calc.ThreadPool.Order.{Reachable-InOrder}
use net_calc.ThreadPool.Progress.{IsQuiet, CanWork, work_or_IsQuiet, all_ran}
use net_calc.ThreadPool.Sound.{Sound}
use net_calc.ThreadPool.Kept.{Reachable-Sound}
use net_calc.ThreadPool.Leave.{IsDraining, Step-IsDraining}

-- Any number of steps.
pub data Later (s : System) : System → Type 0 where
  at_once : Later s s
  later : (t u : System) → Later s t → Step t u → Later s u

pub Later-Reachable : (n : ℕ) (s t : System) → Later s t → Reachable n s → Reachable n t
Later-Reachable n s _ at_once r = r
Later-Reachable n s _ (later t u l step) r = next t u (Later-Reachable n s t l r) step

Later-IsDraining :
    (n : ℕ) (accepted : List Node) (s t : System)
    → Later s t
    → Reachable n s
    → IsDraining accepted s
    → IsDraining accepted t
Later-IsDraining n a s _ at_once r inv = inv
Later-IsDraining n a s _ (later t u l step) r inv =
    Step-IsDraining a t u step (Reachable-InOrder n t (Later-Reachable n s t l r))
      (Later-IsDraining n a s t l r inv)

begin_destroy-IsDraining :
    (n : ℕ) (s : System)
    → Reachable n s
    → s.pool.active ≡ 1
    → s.adding ≡ []
    → (total empty_one s.workers ≡ 0) ⊎ (s.pool.job_pool.size ≡ 0)
    → IsDraining s.accepted (begin_destroy s)
unfolding begin_destroy threadpool_shutdown
begin_destroy-IsDraining n s r active no_adds calm = record {
  off = refl;
  no_adds = no_adds;
  begun = λ e. cc;
  kept = refl;
  none_left = λ p. elim calm [
    | inl none_looks ↦ absurd (omega (arith, none_looks, (Reachable-Sound n s r).stays active, p))
    | inr empty ↦ empty
  ];
}

-- Nothing is left to do behind the broadcast: every thread has left the loop.
quiet-all_finished :
    (n : ℕ) (accepted : List Node) (t : System)
    → Sound n t
    → IsDraining accepted t
    → IsQuiet t
    → total finished_one t.workers ≡ n
quiet-all_finished n a t inv drain quiet = elim inv.phases [
  | inl unused ↦ absurd (drain.begun unused)
  | inr (inl (closes, _)) ↦ absurd (quiet.not_closing closes)
  | inr (inr (_, _, none_sleeps)) ↦
      omega (arith, none_sleeps, quiet.none_awake, inv.threads, total_parts t.workers)
]

-- Every thread has left the loop, the queue is empty, and the jobs that were run are those that
-- had been accepted.
pub record Drained (n : ℕ) (accepted : List Node) (t : System) : Type 0 where
  pub all_finished : total finished_one t.workers ≡ n
  pub none_queued : t.pool.job_pool.size ≡ 0
  pub each_ran : (p : Node → Bool) → count p t.ran ≡ count p accepted

module _ (n : ℕ) (s t : System) (r : Reachable n s) (active : s.pool.active ≡ 1)
    (no_adds : s.adding ≡ []) (unused : s.phase ≡ in_use)
    (calm : (total empty_one s.workers ≡ 0) ⊎ (s.pool.job_pool.size ≡ 0))
    (runs : Later (begin_destroy s) t) where
  destroyed : Reachable n (begin_destroy s)
  destroyed = next s (begin_destroy s) r (destroy s unused)

  pub IsQuiet-Drained : IsQuiet t → Drained n s.accepted t
  IsQuiet-Drained quiet =
      let r' = Later-Reachable n (begin_destroy s) t runs destroyed in
      let drain =
        Later-IsDraining n s.accepted (begin_destroy s) t runs destroyed
          (begin_destroy-IsDraining n s r active no_adds calm) in
      let inv = Reachable-Sound n t r' in
      let ended = quiet-all_finished n s.accepted t inv drain quiet in
      let empty = drain.none_left (omega (arith, ended, inv.some_thread)) in
      record {
        all_finished = ended;
        none_queued = empty;
        each_ran =
            λ p. omega (arith, all_ran n t p r' empty quiet.none_awake, ap (count p) drain.kept);
      }

-- If threadpool_destroy is called for the first time on an active pool while no call of
-- threadpool_add_job is under way, and no thread is between finding the queue empty and looking
-- at active (or the queue is empty), then in every state that follows by steps of the threads
-- and of other callers a thread, a due signal or the broadcast can go on, or else every thread
-- has left its loop, the queue is empty, and, counted by any test on jobs, the jobs that were
-- run are those that had been accepted.
pub begin_destroy_drains :
    (n : ℕ) (s t : System)
    → Reachable n s
    → s.pool.active ≡ 1
    → s.adding ≡ []
    → s.phase ≡ in_use
    → (total empty_one s.workers ≡ 0) ⊎ (s.pool.job_pool.size ≡ 0)
    → Later (begin_destroy s) t
    → CanWork t ⊎ Drained n s.accepted t
begin_destroy_drains n s t r active no_adds unused calm runs = elim (work_or_IsQuiet t) [
  | inl more ↦ inl more
  | inr quiet ↦ inr (IsQuiet-Drained n s t r active no_adds unused calm runs quiet)
]
