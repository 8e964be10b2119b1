-- ===== src/NetMain/Server.antt =====
-- The loop of `start_listener` of 5_NetCalc/src/net_handler.c and the threads of its pool, which
-- take turns.
use net_calc.Prelude.{
  ℕ, suc, ◌+◌, ◌≤◌, ◌<◌, ◌≡◌, Bool, true, false, some, none, [], ◌∷◌, length, get_elem?, ltb,
}
use net_calc.Words.{success}
use net_calc.Queue.Defs.{Node}
use net_calc.ThreadPool.Defs.{System, Work, asleep, passes_guard, add_job, wake, threadpool_create}
use net_calc.ThreadPool.Count.{in_hand}
use net_calc.NetHandler.Listener.{
  Setup, start_listener, Listener, accept_connection, begin_connection, stop_listening,
}

-- What `accept_connection` passes to `threadpool_add_job`: `handle_new_connection` and the one
-- structure, whose pointers are 1 here, and no destructor.
abbrev pub con_node : Node
con_node = record { del_f = 0; task = 1; arg = 1 }

pub record Server : Type 0 where
  pub threads : System
  pub listener : Listener

-- The call of `threadpool_add_job` for a connection. Memory does not run out.
abbrev pub job_added : System → System
job_added s = add_job true con_node [] (record s { adding = con_node ∷ s.adding })

abbrev pub queued : System → Bool
queued s = ltb s.pool.job_pool.size (job_added s).pool.job_pool.size

abbrev pub any_job : Node → Bool
any_job node = true

-- The listener and the threads take turns. A job that has been handed out and has not read its
-- descriptor is running: a thread is done with it only after that. `Comes` says when a connection
-- comes, and with which descriptor.
pub data Turns (n : ℕ) (Comes : Server → ℕ → Type 0) : Server → Type 0 where
  opens :
      (setup : Setup) (s : System) (l : Listener)
      → threadpool_create n ≡ some s
      → start_listener setup ≡ (success, some l)
      → Turns n Comes (record { threads = s; listener = l })
  threads_work :
      (v : Server) (t : System)
      → Turns n Comes v
      → Work v.threads t
      → length t.taken ≤ length v.listener.served + in_hand any_job t.workers
      → Turns n Comes (record { threads = t; listener = v.listener })
  thread_wakes :
      (v : Server) (i : ℕ)
      → Turns n Comes v
      → get_elem? v.threads.workers i ≡ some asleep
      → Turns n Comes (record { threads = wake i v.threads; listener = v.listener })
  connects :
      (v : Server) (con_socket : ℕ)
      → Turns n Comes v
      → v.listener.freed ≡ false
      → v.threads.adding ≡ []
      → passes_guard v.threads.pool con_node ≡ true
      → Comes v con_socket
      → Turns n Comes (record {
        threads = job_added v.threads;
        listener = accept_connection (some con_socket) (queued v.threads) v.listener;
      })
  connects_not :
      (v : Server) (taken_in : Bool)
      → Turns n Comes v
      → v.listener.freed ≡ false
      → Turns n Comes
          (record { threads = v.threads; listener = accept_connection none taken_in v.listener })
  job_begins :
      (v : Server) (others : ℕ)
      → Turns n Comes v
      → v.listener.pending ≡ suc others
      → length v.listener.served < length v.threads.taken
      → Turns n Comes
          (record { threads = v.threads; listener = begin_connection others v.listener })
  signalled :
      (v : Server)
      → Turns n Comes v
      → v.listener.freed ≡ false
      → Turns n Comes (record { threads = v.threads; listener = stop_listening v.listener })
