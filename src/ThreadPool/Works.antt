-- ===== src/ThreadPool/Works.antt =====
-- How long the threads can work with no new call.
use net_calc.Prelude.{ℕ, suc, ◌+◌, ◌*◌, ◌≤◌, arith, length}
use net_calc.ThreadPool.Defs.{System, Phase, in_use, closing, joining, Work, work, Reachable, next}
use net_calc.ThreadPool.Order.{Reachable-InOrder}
use net_calc.ThreadPool.Kept.{Reachable-Sound}
use net_calc.ThreadPool.Measure.{measure, Work-measure, is_closed, phase_cost, total-cost-le}

-- A run of `k` pieces of work.
pub data Works : ℕ → System → System → Type 0 where
  at_rest : (s : System) → Works 0 s s
  after : (k : ℕ) (s t u : System) → Works k s t → Work t u → Works (suc k) s u

pub Works-Reachable : (n k : ℕ) (s t : System) → Works k s t → Reachable n s → Reachable n t
Works-Reachable n _ _ _ (at_rest s) r = r
Works-Reachable n _ _ _ (after k s t u ws w) r =
    next t u (Works-Reachable n k s t ws r) (work t u w)

Works-measure : (n k : ℕ) (s t : System) → Works k s t → Reachable n s → k + measure t ≤ measure s
Works-measure n _ _ _ (at_rest s) r = omega arith
Works-measure n _ _ _ (after k s t u ws w) r =
    let r' = Works-Reachable n k s t ws r in
    omega (
      arith,
      Works-measure n k s t ws r,
      Work-measure n t u w (Reachable-Sound n t r') (Reachable-InOrder n t r'),
    )

phase_cost-le : (phase : Phase) (n : ℕ) → phase_cost phase n ≤ 2 * n + 1
phase_cost-le in_use n = omega arith
phase_cost-le closing n = omega arith
phase_cost-le joining n = omega arith

-- From every state that n threads of a new pool can reach, with no new call and no wake-up
-- without a signal, the threads, the due signals and the broadcast can take at most 4 steps for
-- each job of the queue, 8 for each thread, 3 for each due signal, and one more.
pub Works-bound :
    (n k : ℕ) (s t : System)
    → Reachable n s
    → Works k s t
    → k ≤ 4 * s.pool.job_pool.size + 8 * n + 3 * s.signalling + 1
Works-bound n k s t r ws = omega (
  arith,
  Works-measure n k s t ws r,
  total-cost-le (is_closed s.pool) s.workers,
  phase_cost-le s.phase (length s.workers),
  (Reachable-Sound n s r).threads,
)
