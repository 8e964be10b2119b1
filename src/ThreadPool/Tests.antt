-- ===== src/ThreadPool/Tests.antt =====
-- A run of a pool of one thread, the theorems at its states, and a run that loses a job.
use net_calc.Prelude.{ℕ, Bool, ◌≡◌, ◌⊎◌, ◌≤◌, inl, refl, true, none, [], ◌∷◌, replicate, ◌==◌}
use net_calc.Queue.Defs.{Node, Queue, queue_new, queue_enqueue, queue_dequeue}
use net_calc.ThreadPool.Defs.{
  System, Work, work, begin_add, locked_add, locked_take, job_done, looked_size, looked_active,
  shutdown, Reachable, at_start, next, new_system, enqueue_job, add_job, take_job, run_job,
  look_size, look_active, begin_destroy, destroy, threadpool_shutdown, threadpool_create,
}
use net_calc.ThreadPool.Count.{in_hand, count, total, asleep_one, finished_one}
use net_calc.ThreadPool.Order.{InOrder, Reachable-InOrder}
use net_calc.ThreadPool.Once.{count-taken}
use net_calc.ThreadPool.Shutdown.{any_finished}
use net_calc.ThreadPool.Works.{Works, at_rest, after, Works-bound}
use net_calc.ThreadPool.Progress.{CanWork, work_or_all_ran}
use net_calc.ThreadPool.Finish.{begin_destroy_finishes}
use net_calc.ThreadPool.Drain.{Drained, Later, at_once, later}

abbrev job : Node
job = record { del_f = 0; task = 7; arg = 9 }

abbrev is_job : Node → Bool
is_job node = node.arg == 9

abbrev empty_queue : Queue
empty_queue = record { capacity = 200; size = 0; front = 0; rear = 0; items = replicate 200 none }

abbrev initial : System
initial = new_system 1 empty_queue

initial-Reachable : Reachable 1 initial
unfolding threadpool_create queue_new
initial-Reachable = at_start initial refl

abbrev begun : System
begun = record initial { adding = job ∷ [] }

abbrev added : System
added = add_job true job [] begun

abbrev in_job : System
in_job = take_job 0 added

abbrev done : System
done = run_job 0 job in_job

begun-Reachable : Reachable 1 begun
begun-Reachable = next initial begun initial-Reachable (begin_add initial job refl)

added-Reachable : Reachable 1 added
added-Reachable = next begun added begun-Reachable (locked_add begun true job [] [] refl)

taking : Work added in_job
unfolding add_job enqueue_job queue_enqueue
taking = locked_take added 0 refl refl

in_job-Reachable : Reachable 1 in_job
in_job-Reachable = next added in_job added-Reachable (work added in_job taking)

running_it : Work in_job done
unfolding add_job enqueue_job queue_enqueue take_job queue_dequeue
running_it = job_done in_job 0 job refl

Reachable-InOrder_example : InOrder in_job
Reachable-InOrder_example = Reachable-InOrder 1 in_job in_job-Reachable

count-taken_example : 1 ≡ in_hand is_job in_job.workers
unfolding add_job enqueue_job queue_enqueue take_job queue_dequeue
count-taken_example = count-taken 1 in_job is_job in_job-Reachable

Works-bound_example : 2 ≤ 16
unfolding add_job enqueue_job queue_enqueue
Works-bound_example =
    Works-bound 1 2 added done added-Reachable
      (after 1 added in_job done (after 0 added added in_job (at_rest added) taking) running_it)

work_or_all_ran_example :
    CanWork added
    ⊎ ((added.pool.job_pool.size ≡ 0)
        × (total asleep_one added.workers ≡ 1)
        × (count is_job added.ran ≡ count is_job added.accepted))
unfolding add_job enqueue_job
work_or_all_ran_example = work_or_all_ran 1 added is_job added-Reachable refl

-- The pool is destroyed with a job in its queue, and the thread takes it.
abbrev closing_down : System
closing_down = take_job 0 (begin_destroy added)

closing_down-Later : Later (begin_destroy added) closing_down
unfolding add_job enqueue_job queue_enqueue begin_destroy threadpool_shutdown
closing_down-Later =
    later (begin_destroy added) closing_down at_once
      (work (begin_destroy added) closing_down (locked_take (begin_destroy added) 0 refl refl))

begin_destroy_finishes_example :
    (CanWork closing_down ⊎ Drained 1 (job ∷ []) closing_down)
    × ((k : ℕ) × (u : System) × Works k closing_down u × Drained 1 (job ∷ []) u)
unfolding add_job enqueue_job queue_enqueue
begin_destroy_finishes_example =
    begin_destroy_finishes 1 added closing_down added-Reachable refl refl refl (inl refl)
      closing_down-Later

-- The pool is shut down before any job: the thread leaves the wait, finds nothing and ends.
abbrev shut : System
shut = threadpool_shutdown initial

abbrev ended : System
ended = look_active 0 (look_size 0 (take_job 0 shut))

ended-Reachable : Reachable 1 ended
unfolding threadpool_shutdown take_job queue_dequeue look_size
ended-Reachable =
    next (look_size 0 (take_job 0 shut)) ended
      (next (take_job 0 shut) (look_size 0 (take_job 0 shut))
        (next shut (take_job 0 shut) (next initial shut initial-Reachable (shutdown initial))
          (work shut (take_job 0 shut) (locked_take shut 0 refl refl)))
        (work (take_job 0 shut) (look_size 0 (take_job 0 shut))
          (looked_size (take_job 0 shut) 0 refl)))
      (work (look_size 0 (take_job 0 shut)) ended
        (looked_active (look_size 0 (take_job 0 shut)) 0 refl))

ended-any_finished : any_finished ended.workers ≡ true
unfolding look_size look_active take_job queue_dequeue threadpool_shutdown
ended-any_finished = refl

-- The thread has run a job and found the queue empty, then a job is added and the pool destroyed:
-- the thread ends with the job in the queue.
abbrev looked : System
looked = look_size 0 done

abbrev added_late : System
added_late = add_job true job [] (record looked { adding = job ∷ [] })

abbrev lost : System
lost = look_active 0 (begin_destroy added_late)

a_job_is_lost : (total finished_one lost.workers ≡ 1) × (lost.pool.job_pool.size ≡ 1)
unfolding look_size look_active run_job add_job enqueue_job queue_enqueue take_job queue_dequeue
    begin_destroy threadpool_shutdown
a_job_is_lost = (refl, refl)

lost-Later : Later done lost
unfolding look_size look_active run_job add_job enqueue_job queue_enqueue take_job queue_dequeue
    begin_destroy threadpool_shutdown
lost-Later =
    later (begin_destroy added_late) lost
      (later added_late (begin_destroy added_late)
        (later (record looked { adding = job ∷ [] }) added_late
          (later looked (record looked { adding = job ∷ [] })
            (later done looked at_once (work done looked (looked_size done 0 refl)))
            (begin_add looked job refl))
          (locked_add (record looked { adding = job ∷ [] }) true job [] [] refl))
        (destroy added_late refl))
      (work (begin_destroy added_late) lost (looked_active (begin_destroy added_late) 0 refl))
