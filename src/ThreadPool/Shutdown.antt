-- ===== src/ThreadPool/Shutdown.antt =====
-- When the threads end.
use net_calc.Prelude.{ℕ, zero, suc, ◌≤◌, ◌≡◌, refl, arith, Bool, true, false, List}
use net_calc.Prelude.{ltb, ltb→lt}
use net_calc.Queue.Defs.{Node}
use net_calc.ThreadPool.Defs.{System, Pool, Worker, passes_guard, Reachable}
use net_calc.ThreadPool.Count.{total, finished_one}
use net_calc.ThreadPool.Kept.{Reachable-Sound}

abbrev pub any_finished : List Worker → Bool
any_finished workers = ltb 0 (total finished_one workers)

leaves_inactive : (a k : ℕ) → a ≤ 1 → (a ≡ 1 → k ≡ 0) → ltb 0 k ≡ true → a ≡ 0
leaves_inactive zero k le stays e = refl
leaves_inactive (suc a) k le stays e = absurd (omega (arith, ltb→lt 0 k e, stays (omega arith)))

no_guard : (pool : Pool) (node : Node) → pool.active ≡ 0 → passes_guard pool node ≡ false
no_guard pool node e = ground arith

-- In every state that the threads of a new pool can reach, if a thread has ended, the pool is
-- shut down, and no further call of threadpool_add_job passes its guard.
pub any_finished-passes_guard :
    (n : ℕ) (s : System) (node : Node)
    → Reachable n s
    → any_finished s.workers ≡ true
    → (s.pool.active ≡ 0) × (passes_guard s.pool node ≡ false)
any_finished-passes_guard n s node r ended =
    let inv = Reachable-Sound n s r in
    let inactive =
      leaves_inactive s.pool.active (total finished_one s.workers) inv.flag inv.stays ended in
    (inactive, no_guard s.pool node inactive)
