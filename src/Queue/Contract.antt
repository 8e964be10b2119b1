-- ===== src/Queue/Contract.antt =====
-- The queue of 4_ThreadCalc/src/queue.c implements the bounded list queue.
use net_calc.Prelude.{
  ℕ, ◌+◌, ◌-◌, ◌^◌, ◌≤◌, ◌<◌, arith, ◌≡◌, true, some, List, [], length, ◌==◌, if◌then◌else◌,
}
use native.Mathlib.Nat.{mod-lt}
use net_calc.Queue.Defs.{Node, Queue, queue_enqueue, queue_dequeue, queue_clear}
use net_calc.Queue.Fifo
use net_calc.Queue.Refine.{Holds, enqueue_status, queue_enqueue_refines}
use net_calc.Queue.Remove.{queue_dequeue_refines, queue_clear-Holds}

-- On a queue that satisfies its representation invariant and holds a list of jobs: queue_enqueue
-- with a successful allocation leaves a queue that holds the jobs of the bounded list queue, the
-- node behind the others unless the queue is full or its argument is NULL, with status 0 only if
-- the node joins at least one other, and 1 otherwise, also where the node is taken into an empty
-- queue; queue_dequeue hands out the oldest job, or nothing if there is none, and leaves the
-- others in order; queue_clear leaves a queue that holds nothing, with status 1 if it was empty
-- and 0 otherwise. Each leaves the capacity as it was and the invariant satisfied.
pub queue_refines :
    (q : Queue) (jobs : List Node) (node : Node)
    → Holds q jobs
    → ((q' : Queue) × (queue_enqueue true (some q) node.task node.del_f node.arg
          ≡ (enqueue_status q.capacity jobs node, some q'))
        × (q'.capacity ≡ q.capacity)
        × Holds q' (Fifo.push q.capacity jobs node))
      × ((q' : Queue) × (queue_dequeue (some q) ≡ ((Fifo.pop jobs).0, some q'))
          × (q'.capacity ≡ q.capacity)
          × Holds q' (Fifo.pop jobs).1)
      × ((q' : Queue) × (queue_clear (some q) ≡ ((if length jobs == 0 then 1 else 0), some q'))
          × (q'.capacity ≡ q.capacity)
          × Holds q' [])
queue_refines q jobs node h = (
  queue_enqueue_refines q jobs node h,
  queue_dequeue_refines q jobs h,
  queue_clear-Holds q jobs h,
)

-- At a capacity of at most 2^30, an int can hold the sums of indices that the functions of a queue
-- compute, which are numbers here: those of queue_clear, and the successors of both ends.
indices_fit :
    (q : Queue) (jobs : List Node) (iter : ℕ)
    → Holds q jobs
    → q.capacity ≤ 2 ^ 30
    → iter < q.size
    → (q.front + iter < 2 ^ 31) × (q.front + 1 < 2 ^ 31) × (q.rear + 1 < 2 ^ 31)
indices_fit q jobs iter h small inside =
    let rear = h.rear_last (omega (arith, inside)) in
    (
      omega (arith, h.front_lt, h.size_le),
      omega (arith, h.front_lt),
      omega (arith, h.room, rear, mod-lt (q.front + (q.size - 1)) h.room),
    )
