-- ===== src/Queue/Nodes.antt =====
-- The nodes that the functions of 4_ThreadCalc/src/queue.c allocate and free.
use net_calc.Prelude.{
  ℕ, zero, suc, ◌+◌, ◌%◌, Bool, Option, none, some, List, [], ◌∷◌, ◌++◌, get_or, set, ◌==◌,
  if◌then◌else◌,
}
use net_calc.Queue.Defs.{
  Node, Queue, queue_fullcheck, queue_emptycheck, queue_enqueue, queue_dequeue, queue_peek,
  queue_clear,
}

-- A queue with the nodes that `calloc` has given to `queue_enqueue`, in order, and what was given to
-- `free`, in order.
pub record Ledger : Type 0 where
  pub queue : Queue
  pub allocated : List Node
  pub freed : List (Option Node)

abbrev pub new_ledger : Queue → Ledger
new_ledger q = record { queue = q; allocated = []; freed = [] }

abbrev pub behind : Queue → Option Queue → Queue
behind q none = q
behind q (some q') = q'

-- `queue_enqueue` calls `calloc` behind two tests.
abbrev pub node_allocated : Bool → Queue → Node → List Node
node_allocated has_memory q node =
    if queue_fullcheck (some q) == 0
    then (if node.arg == 0 then [] else if has_memory then node ∷ [] else [])
    else []

-- `queue_dequeue` frees the node that it has found.
abbrev pub node_freed : Option Node → List (Option Node)
node_freed none = []
node_freed (some node) = some node ∷ []

-- What the loop of `queue_clear` frees, with `left` rounds to go.
unfoldable pub slots_freed : ℕ → ℕ → ℕ → ℕ → List (Option Node) → List (Option Node)
slots_freed zero iter front capacity items = []
slots_freed (suc left) iter front capacity items =
    get_or items ((front + iter) % capacity) none
    ∷ slots_freed left (iter + 1) front capacity (set items ((front + iter) % capacity) none)

abbrev pub clear_freed : Queue → List (Option Node)
clear_freed q =
    if queue_emptycheck (some q) == 0 then slots_freed q.size 0 q.front q.capacity q.items else []

-- The calls of a client.
pub data QueueCall : Type 0 where
  enqueues : Bool → Node → QueueCall
  dequeues : QueueCall
  clears : QueueCall

unfoldable pub make_call : QueueCall → Ledger → Ledger
make_call (enqueues has_memory node) l = record {
  queue = behind l.queue (queue_enqueue has_memory (some l.queue) node.task node.del_f node.arg).1;
  allocated = l.allocated ++ node_allocated has_memory l.queue node;
  freed = l.freed;
}
make_call dequeues l = record {
  queue = behind l.queue (queue_dequeue (some l.queue)).1;
  allocated = l.allocated;
  freed = l.freed ++ node_freed (queue_peek (some l.queue));
}
make_call clears l = record {
  queue = behind l.queue (queue_clear (some l.queue)).1;
  allocated = l.allocated;
  freed = l.freed ++ clear_freed l.queue;
}

unfoldable pub make_calls : List QueueCall → Ledger → Ledger
make_calls [] l = l
make_calls (c ∷ calls) l = make_calls calls (make_call c l)

-- The nodes that `queue_destroy` frees come behind these.
abbrev pub freed_at_end : Ledger → List (Option Node)
freed_at_end l = l.freed ++ clear_freed l.queue
