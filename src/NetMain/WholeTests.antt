-- ===== src/NetMain/WholeTests.antt =====
-- The network calculator with one thread and one connection.
use net_calc.Prelude.{ℕ, ◌≡◌, ◌⊎◌, ◌≤◌, refl, arith, inl, none, some, true, replicate, map}
use net_calc.Prelude.Int.{pos}
use net_calc.Queue.Defs.{Queue, queue_new, queue_enqueue, queue_dequeue}
use net_calc.ThreadPool.Defs.{
  System, locked_take, new_system, threadpool_create, add_job, enqueue_job, take_job, begin_destroy,
}
use net_calc.ThreadPool.Works.{Works}
use net_calc.ThreadPool.Progress.{CanWork}
use net_calc.ThreadPool.Drain.{at_once}
use net_calc.NetHandler.Listener.{
  Setup, start_listener, new_listener, accept_connection, read_args, begin_connection,
  stop_listening,
}
use net_calc.NetMain.Server.{
  Server, Turns, opens, threads_work, connects, job_begins, signalled, job_added, queued,
}
use net_calc.NetMain.Whole.{Done, InCalm, net_calculator_serves}

abbrev empty_queue : Queue
empty_queue = record { capacity = 200; size = 0; front = 0; rear = 0; items = replicate 200 none }

abbrev all_succeed : Setup
all_succeed = record { resolved = true; allocated = true; bound = true; listens = true }

abbrev opened : Server
opened = record { threads = new_system 1 empty_queue; listener = new_listener }

abbrev connected : Server
connected = record {
  threads = job_added opened.threads;
  listener = accept_connection (some 4) (queued opened.threads) new_listener;
}

abbrev taken : Server
taken = record { threads = take_job 0 connected.threads; listener = connected.listener }

abbrev begun : Server
begun = record { threads = taken.threads; listener = begin_connection 0 taken.listener }

abbrev stopped : Server
stopped = record { threads = begun.threads; listener = stop_listening begun.listener }

opened-Turns : Turns 1 InCalm opened
unfolding threadpool_create queue_new start_listener
opened-Turns = opens all_succeed opened.threads new_listener refl refl

connected-Turns : Turns 1 InCalm connected
connected-Turns = connects opened 4 opened-Turns refl refl refl (refl, omega arith)

taken-Turns : Turns 1 InCalm taken
unfolding add_job enqueue_job queue_enqueue take_job queue_dequeue accept_connection
taken-Turns =
    threads_work connected taken.threads connected-Turns (locked_take connected.threads 0 refl refl)
      one_runs
  where
    one_runs : 1 ≤ 1
    one_runs = omega arith

stopped-Turns : Turns 1 InCalm stopped
unfolding add_job enqueue_job queue_enqueue take_job queue_dequeue accept_connection read_args
stopped-Turns = signalled begun (job_begins taken 0 taken-Turns refl unread) refl
  where
    unread : 1 ≤ 1
    unread = omega arith

net_calculator_serves_example :
    (stopped.listener.served ≡ map pos stopped.listener.accepted)
    × (CanWork (begin_destroy stopped.threads)
        ⊎ Done 1 stopped.listener (begin_destroy stopped.threads))
    × ((k : ℕ) × (u : System) × Works k (begin_destroy stopped.threads) u
        × Done 1 stopped.listener u)
unfolding add_job enqueue_job queue_enqueue take_job queue_dequeue accept_connection read_args
    stop_listening
net_calculator_serves_example =
    net_calculator_serves 1 stopped (begin_destroy stopped.threads) stopped-Turns (omega arith) refl
      refl refl (inl refl) at_once
