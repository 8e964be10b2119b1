-- ===== src/Queue/Fifo.antt =====
-- The queue that a client should see: the accepted jobs, oldest first, at most `capacity` of them.
use net_calc.Prelude.{ℕ, Option, none, some, List, [], ◌∷◌, ◌++◌}
use net_calc.Prelude.{◌==◌, if◌then◌else◌, length}
use net_calc.Queue.Defs.{Node}

-- A job is taken unless the queue is full or the argument is NULL.
unfoldable pub push : ℕ → List Node → Node → List Node
push capacity jobs node =
    if length jobs == capacity then jobs else if node.arg == 0 then jobs else jobs ++ (node ∷ [])

unfoldable pub pop : List Node → Option Node × List Node
pop [] = (none, [])
pop (node ∷ jobs) = (some node, jobs)
