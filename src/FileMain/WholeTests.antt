-- ===== src/FileMain/WholeTests.antt =====
-- The file calculator on one file, with one thread.
use net_calc.Prelude.{ℕ, ◌≡◌, ◌⊎◌, refl, arith, inl, true, none, [], ◌∷◌, replicate}
use net_calc.Prelude.Int.{pos}
use net_calc.Words.{success}
use net_calc.FileIo.Stream.{piece_left}
use net_calc.Queue.Defs.{Queue, queue_new, queue_enqueue}
use net_calc.ThreadPool.Defs.{
  System, work, locked_take, new_system, threadpool_create, add_job, enqueue_job, take_job,
  begin_destroy, threadpool_shutdown,
}
use net_calc.ThreadPool.Works.{Works}
use net_calc.ThreadPool.Progress.{CanWork}
use net_calc.ThreadPool.Drain.{Later, at_once, later}
use net_calc.ThreadPool.Feed.{Feeds, fresh, calls, adds}
use net_calc.NetHandler.Packed.{header_bytes}
use net_calc.NetHandler.Messages.{solved_header}
use net_calc.NetHandler.Loop.{file_bytes}
use net_calc.NetHandler.Samples.{header_for, sum}
use net_calc.FileIo.Safe.{safe_read, goes_on, read_loop, safe_write, write_loop}
use net_calc.FileHandler.Directory.{
  Job, parsed, directory_parse, entries_loop, check_header, create_file, wait_signal, job_for,
}
use net_calc.FileHandler.Jobs.{entry_of}
use net_calc.FileHandler.Samples.{task, task-IsGood}
use net_calc.FileMain.Whole.{node_of, nodes_from, Done, file_calculator_solves}

abbrev the_job : Job
the_job =
    job_for (pos 5) 6 (header_for 1 0) (piece_left (file_bytes (sum ∷ sum ∷ [])) [])
      (record { written = header_bytes (solved_header (header_for 1 0)); calls = [] })

one_job : directory_parse true (entry_of (task 5) ∷ []) (2 ∷ []) ≡ parsed success (the_job ∷ [])
unfolding directory_parse entries_loop check_header safe_read goes_on read_loop create_file
    safe_write write_loop wait_signal
one_job = refl

abbrev empty_queue : Queue
empty_queue = record { capacity = 200; size = 0; front = 0; rear = 0; items = replicate 200 none }

abbrev initial : System
initial = new_system 1 empty_queue

abbrev begun : System
begun = record initial { adding = node_of 0 ∷ [] }

abbrev added : System
added = add_job true (node_of 0) [] begun

begun-Feeds : Feeds 1 [] begun
unfolding threadpool_create queue_new
begun-Feeds = calls [] initial (node_of 0) (fresh initial refl) refl refl

added-Feeds : Feeds 1 (nodes_from 0 (the_job ∷ [])) added
added-Feeds = adds [] begun (node_of 0) begun-Feeds refl

-- The pool is destroyed with the job in its queue, and the thread takes it.
abbrev closing_down : System
closing_down = take_job 0 (begin_destroy added)

closing_down-Later : Later (begin_destroy added) closing_down
unfolding add_job enqueue_job queue_enqueue begin_destroy threadpool_shutdown
closing_down-Later =
    later (begin_destroy added) closing_down at_once
      (work (begin_destroy added) closing_down (locked_take (begin_destroy added) 0 refl refl))

file_calculator_solves_example :
    (CanWork closing_down ⊎ Done 1 (task 5 ∷ []) (the_job ∷ []) closing_down)
    × ((k : ℕ) × (u : System) × Works k closing_down u × Done 1 (task 5 ∷ []) (the_job ∷ []) u)
unfolding add_job enqueue_job
file_calculator_solves_example =
    file_calculator_solves 1 (task 5 ∷ []) 2 [] (the_job ∷ []) added closing_down (task-IsGood, tt)
      (λ e. absurd (omega (arith, e))) (omega arith) one_job added-Feeds refl (inl refl)
      closing_down-Later
