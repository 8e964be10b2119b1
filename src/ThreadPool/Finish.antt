-- ===== src/ThreadPool/Finish.antt =====
-- The threads can be run until nothing is left to do.
use net_calc.Prelude.{ℕ, zero, suc, ◌≤◌, ◌≡◌, ◌⊎◌, inl, inr, arith, []}
use net_calc.ThreadPool.Defs.{System, in_use, Work, work, destroy, Reachable, next, begin_destroy}
use net_calc.ThreadPool.Count.{empty_one, total}
use net_calc.ThreadPool.Order.{Reachable-InOrder}
use net_calc.ThreadPool.Kept.{Reachable-Sound}
use net_calc.ThreadPool.Measure.{measure, Work-measure}
use net_calc.ThreadPool.Works.{Works, at_rest, after}
use net_calc.ThreadPool.Progress.{CanWork, IsQuiet, work_or_IsQuiet}
use net_calc.ThreadPool.Drain.{
  Later, later, Drained, IsQuiet-Drained, Later-Reachable, begin_destroy_drains,
}

Work-Works : (k : ℕ) (s t u : System) → Work s t → Works k t u → Works (suc k) s u
Work-Works _ s t _ w (at_rest _) = after 0 s s t (at_rest s) w
Work-Works _ s t _ w (after k _ u v ws w') = after (suc k) s u v (Work-Works k s t u w ws) w'

-- A run to a state where nothing is left to do.
abbrev pub Settles : System → Type 0
Settles s = (k : ℕ) × (t : System) × Works k s t × IsQuiet t

settle : (n fuel : ℕ) (s : System) → Reachable n s → measure s ≤ fuel → Settles s
settle n zero s r below = elim (work_or_IsQuiet s) [
  | inl (t, w) ↦
      absurd (
        omega
          (arith, below, Work-measure n s t w (Reachable-Sound n s r) (Reachable-InOrder n s r)))
  | inr quiet ↦ (0, s, at_rest s, quiet)
]
settle n (suc fuel) s r below = elim (work_or_IsQuiet s) [
  | inl (t, w) ↦
      let (k, u, ws, quiet) = settle n fuel t (next s t r (work s t w)) (
        omega
          (arith, below, Work-measure n s t w (Reachable-Sound n s r) (Reachable-InOrder n s r))) in
      (suc k, u, Work-Works k s t u w ws, quiet)
  | inr quiet ↦ (0, s, at_rest s, quiet)
]

pub Reachable-Settles : (n : ℕ) (s : System) → Reachable n s → Settles s
Reachable-Settles n s r = settle n (measure s) s r (omega arith)

Later-Works : (k : ℕ) (s t u : System) → Later s t → Works k t u → Later s u
Later-Works _ s t _ l (at_rest _) = l
Later-Works _ s t _ l (after k _ u v ws w) = later u v (Later-Works k s t u l ws) (work u v w)

-- If threadpool_destroy is called for the first time on an active pool while no call of
-- threadpool_add_job is under way, and no thread is between finding the queue empty and looking
-- at active (or the queue is empty), then in every state that follows by steps of the threads
-- and of other callers a thread, a due signal or the broadcast can go on, or else every thread
-- has left its loop, the queue is empty, and, counted by any test on jobs, the jobs that were
-- run are those that had been accepted; and from every such state some run of the threads, the
-- signals and the broadcast alone leads to such an end.
pub begin_destroy_finishes :
    (n : ℕ) (s t : System)
    → Reachable n s
    → s.pool.active ≡ 1
    → s.adding ≡ []
    → s.phase ≡ in_use
    → (total empty_one s.workers ≡ 0) ⊎ (s.pool.job_pool.size ≡ 0)
    → Later (begin_destroy s) t
    → (CanWork t ⊎ Drained n s.accepted t)
      × ((k : ℕ) × (u : System) × Works k t u × Drained n s.accepted u)
begin_destroy_finishes n s t r active no_adds unused calm runs =
    let r' =
      Later-Reachable n (begin_destroy s) t runs (next s (begin_destroy s) r (destroy s unused)) in
    let (k, u, ws, quiet) = Reachable-Settles n t r' in
    (
      begin_destroy_drains n s t r active no_adds unused calm runs,
      (
        k,
        u,
        ws,
        IsQuiet-Drained n s u r active no_adds unused calm
            (Later-Works k (begin_destroy s) t u runs ws) quiet,
      ),
    )
