-- ===== src/ThreadPool/Executor.antt =====
-- What threadpool.h promises: a pool takes jobs in, hands them out in their order, and runs each to
-- its end. There are no threads, and no mutex, condition or signal.
use net_calc.Prelude.{◌<◌, ◌≢◌, List, [], ◌∷◌, ◌++◌, length}
use net_calc.Queue.Defs.{Node}
use net_calc.ThreadPool.Defs.{max_jobs}

-- The jobs that wait, oldest first, those that run, in any order, and those that have ended.
pub record Executor : Type 0 where
  pub queued : List Node
  pub in_progress : List Node
  pub ended : List Node

abbrev pub idle : Executor
idle = record { queued = []; in_progress = []; ended = [] }

pub data Moves : Executor → Executor → Type 0 where
  stays : (e : Executor) → Moves e e
  takes_in :
      (e : Executor) (node : Node)
      → length e.queued < max_jobs
      → node.arg ≢ 0
      → Moves e (record e { queued = e.queued ++ (node ∷ []) })
  hands_out :
      (node : Node) (rest before after over : List Node)
      → Moves
          (record { queued = node ∷ rest; in_progress = before ++ after; ended = over })
          (record { queued = rest; in_progress = before ++ (node ∷ after); ended = over })
  ends :
      (node : Node) (rest before after over : List Node)
      → Moves
          (record { queued = rest; in_progress = before ++ (node ∷ after); ended = over })
          (record { queued = rest; in_progress = before ++ after; ended = over ++ (node ∷ []) })

-- What the executor can come to.
pub data Executes : Executor → Type 0 where
  at_idle : Executes idle
  goes_on : (e e' : Executor) → Executes e → Moves e e' → Executes e'
