-- ===== src/ThreadPool/ExecutorTests.antt =====
-- A thread takes the only job of the queue.
use net_calc.Prelude.{refl, arith, none, true, [], ◌∷◌, replicate}
use net_calc.Queue.Defs.{Node, Queue, queue_new, queue_enqueue}
use net_calc.Queue.Refine.{Holds}
use net_calc.ThreadPool.Defs.{
  System, Reachable, at_start, next, begin_add, locked_add, locked_take, work, new_system,
  threadpool_create, add_job, enqueue_job, take_job,
}
use net_calc.ThreadPool.Executor.{Executor, Moves}
use net_calc.ThreadPool.Represent.{Represents}
use net_calc.ThreadPool.Simulate.{Step-Moves}

abbrev job : Node
job = record { del_f = 0; task = 7; arg = 9 }

abbrev empty_queue : Queue
empty_queue = record { capacity = 200; size = 0; front = 0; rear = 0; items = replicate 200 none }

abbrev initial : System
initial = new_system 1 empty_queue

abbrev begun : System
begun = record initial { adding = job ∷ [] }

abbrev added : System
added = add_job true job [] begun

abbrev one_queued : Executor
one_queued = record { queued = job ∷ []; in_progress = []; ended = [] }

added-Reachable : Reachable 1 added
unfolding threadpool_create queue_new
added-Reachable =
    next begun added (next initial begun (at_start initial refl) (begin_add initial job refl))
      (locked_add begun true job [] [] refl)

added-Holds : Holds added.pool.job_pool (job ∷ [])
unfolding add_job enqueue_job queue_enqueue
added-Holds = record {
  room = omega arith;
  slots = refl;
  size_le = omega arith;
  front_lt = omega arith;
  at_start = λ e. absurd (omega (arith, e));
  rear_last = λ h. refl;
  held = refl;
}

added-Represents : Represents added one_queued
unfolding add_job
added-Represents = record { holds = added-Holds; runs = refl; over = refl }

Step-Moves_example : (e : Executor) × Moves one_queued e × Represents (take_job 0 added) e
unfolding add_job enqueue_job queue_enqueue
Step-Moves_example =
    Step-Moves 1 added (take_job 0 added) one_queued added-Reachable
      (work added (take_job 0 added) (locked_take added 0 refl refl)) added-Represents
