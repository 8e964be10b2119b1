-- ===== src/NetMain/Whole.antt =====
-- The network calculator as a whole: the listener of 5_NetCalc/src/net_handler.c gives its jobs to
-- the pool, and the pool is destroyed.
use net_calc.Prelude.{
  inl, inr, ℕ, zero, suc, ◌≤◌, ◌<◌, ◌≡◌, ◌⊎◌, ◌∙◌, refl, sym, ap, subst, arith, Bool, true, false,
  List, [], ◌∷◌, ◌++◌, length, length-append, map, append-nil, replicate, if◌then◌else◌,
}
use net_calc.Prelude.Int.{pos}
use net_calc.Queue.Defs.{Node}
use net_calc.ThreadPool.Defs.{System, max_jobs, add_job, next, begin_add, begin_destroy}
use net_calc.ThreadPool.Count.{count, total, empty_one, finished_one}
use net_calc.ThreadPool.Room.{add_job-accepted}
use net_calc.ThreadPool.Feed.{
  Feeds, fresh, works, wakes, calls, adds, Feeds-Reachable, Feeds-InService, NotNull,
}
use net_calc.ThreadPool.Works.{Works}
use net_calc.ThreadPool.Drain.{Later, Drained}
use net_calc.ThreadPool.Progress.{CanWork}
use net_calc.ThreadPool.Finish.{begin_destroy_finishes}
use net_calc.NetHandler.Listener.{
  Listener, accept_connection, stop_listening, Listens, listening, accepts, accept_fails, begins,
  stops,
}
use net_calc.NetHandler.Served.{Calm, left, read_args-accepted, Listens-InTurn, new_at_start}
use net_calc.NetMain.Server.{
  con_node, Server, job_added, queued, any_job, Turns, opens, threads_work, thread_wakes, connects,
  connects_not, job_begins, signalled,
}

abbrev con_jobs : ℕ → List Node
con_jobs k = replicate k con_node

con_jobs-suc : (k : ℕ) → con_jobs k ++ (con_node ∷ []) ≡ con_jobs (suc k)
con_jobs-suc zero = refl
con_jobs-suc (suc k) = ap (λ l. con_node ∷ l) (con_jobs-suc k)

length-con_jobs : (k : ℕ) → length (con_jobs k) ≡ k
length-con_jobs zero = refl
length-con_jobs (suc k) = ap suc (length-con_jobs k)

con_jobs-NotNull : (k : ℕ) → NotNull (con_jobs k)
con_jobs-NotNull zero = tt
con_jobs-NotNull (suc k) = (λ e. absurd (omega (arith, e)), con_jobs-NotNull k)

one_more : (ns : List ℕ) (c : ℕ) → suc (length ns) ≡ length (ns ++ (c ∷ []))
one_more ns c = omega (arith, length-append ns (c ∷ []))

-- The pool is fed with one job for each accepted connection.
Turns-Feeds :
    (n : ℕ) (Comes : Server → ℕ → Type 0) (v : Server)
    → Turns n Comes v
    → Feeds n (con_jobs (length v.listener.accepted)) v.threads
unfolding accept_connection stop_listening
Turns-Feeds n C _ (opens setup s l e f) =
    subst (λ x. Feeds n (con_jobs (length x.accepted)) s) (new_at_start setup l f) (fresh s e)
Turns-Feeds n C _ (threads_work v t r w h) = works _ v.threads t (Turns-Feeds n C v r) w
Turns-Feeds n C _ (thread_wakes v i r e) = wakes _ v.threads i (Turns-Feeds n C v r) e
Turns-Feeds n C _ (connects v c r still idle p comes) =
    subst (λ jobs. Feeds n jobs (job_added v.threads))
      (con_jobs-suc (length v.listener.accepted) ∙ ap con_jobs (one_more v.listener.accepted c))
      (adds (con_jobs (length v.listener.accepted)) _ con_node
        (calls _ v.threads con_node (Turns-Feeds n C v r) idle p) (ap (λ l. con_node ∷ l) idle))
Turns-Feeds n C _ (connects_not v b r still) = Turns-Feeds n C v r
Turns-Feeds n C _ (job_begins v k r due h) =
    subst (λ a. Feeds n (con_jobs (length a)) v.threads)
      (sym (read_args-accepted v.listener.freed k v.listener)) (Turns-Feeds n C v r)
Turns-Feeds n C _ (signalled v r still) = Turns-Feeds n C v r

-- A connection comes when no job has its descriptor still to read, and its descriptor fits.
abbrev pub InCalm : Server → ℕ → Type 0
InCalm v con_socket = (v.listener.pending ≡ 0) × (con_socket < 128)

kept :
    (b : Bool) (nodes : List Node)
    → (if b then nodes ++ (con_node ∷ []) else nodes) ≡ nodes ++ (con_node ∷ [])
    → b ≡ true
kept true nodes e = refl
kept false nodes e = absurd (omega (arith, ap length e, length-append nodes (con_node ∷ [])))

queued-accepted :
    (s : System) → (job_added s).accepted ≡ s.accepted ++ (con_node ∷ []) → queued s ≡ true
unfolding add_job
queued-accepted s e = kept (queued s) s.accepted e

-- As long as there are places for all, each job is taken in.
Turns-Listens :
    (n : ℕ) (v : Server)
    → Turns n InCalm v
    → length v.listener.accepted ≤ max_jobs
    → Listens Calm v.listener
unfolding accept_connection stop_listening
Turns-Listens n _ (opens setup s l e f) few = listening setup l f
Turns-Listens n _ (threads_work v t r w h) few = Turns-Listens n v r few
Turns-Listens n _ (thread_wakes v i r e) few = Turns-Listens n v r few
Turns-Listens n _ (connects v c r still idle p (none_due, fits)) few =
    let fewer : suc (length v.listener.accepted) ≤ max_jobs =
      omega (arith, few, one_more v.listener.accepted c) in
    let feeds = Turns-Feeds n InCalm v r in
    let inv =
      Feeds-InService n (con_jobs (length v.listener.accepted)) v.threads feeds
        (omega (arith, fewer, length-con_jobs (length v.listener.accepted)))
        (con_jobs-NotNull (length v.listener.accepted)) in
    accepts v.listener c (queued v.threads) (Turns-Listens n v r (omega (arith, fewer))) still (
      none_due,
      fits,
      queued-accepted v.threads (
          add_job-accepted n (record v.threads { adding = con_node ∷ v.threads.adding }) con_node []
            (next v.threads _ (Feeds-Reachable n _ v.threads feeds)
              (begin_add v.threads con_node p))
            (omega
              (arith, fewer, ap length inv.taken_in, length-con_jobs (length v.listener.accepted)))
            (λ e. absurd (omega (arith, e)))),
    )
Turns-Listens n _ (connects_not v b r still) few =
    accept_fails v.listener b (Turns-Listens n v r few) still
Turns-Listens n _ (job_begins v k r due h) few =
    let same = ap length (read_args-accepted v.listener.freed k v.listener) in
    begins v.listener k (Turns-Listens n v r (omega (arith, few, same))) due
Turns-Listens n _ (signalled v r still) few = stops v.listener (Turns-Listens n v r few) still

-- The test on jobs that all pass counts them.
count-any : (nodes : List Node) → count any_job nodes ≡ length nodes
count-any [] = refl
count-any (node ∷ nodes) = omega (arith, count-any nodes)

-- All threads have left their loops, and as many jobs have been run as connections were accepted.
abbrev pub Done : ℕ → Listener → System → Type 0
Done n l u = (total finished_one u.workers ≡ n) × (length u.ran ≡ length l.accepted)

-- Let the listener and a new pool of n threads take turns, where each connection comes when no
-- job has its descriptor still to read, with a descriptor below 128, no more connections come
-- than the queue has places (200), and memory does not run out. If no job has read the structure
-- of the descriptor after the listener has freed it, and no job has its descriptor still to read
-- when threadpool_destroy is called, no call of threadpool_add_job is then under way, and no
-- thread is between finding the queue empty and looking at active (or the queue is empty), then
-- the descriptors that the jobs have read are those of the accepted connections, each once and
-- in their order, and in every state that follows by steps of the threads and of other callers a
-- thread, a due signal or the broadcast can go on, or else all n threads have left their loops
-- and as many jobs have been run to their end as connections were accepted; and from every such
-- state some run of the threads, the signals and the broadcast alone leads to such an end.
pub net_calculator_serves :
    (n : ℕ) (v : Server) (t : System)
    → Turns n InCalm v
    → length v.listener.accepted ≤ max_jobs
    → v.listener.misread ≡ false
    → v.listener.pending ≡ 0
    → v.threads.adding ≡ []
    → (total empty_one v.threads.workers ≡ 0) ⊎ (v.threads.pool.job_pool.size ≡ 0)
    → Later (begin_destroy v.threads) t
    → (v.listener.served ≡ map pos v.listener.accepted)
      × (CanWork t ⊎ Done n v.listener t)
      × ((k : ℕ) × (u : System) × Works k t u × Done n v.listener u)
net_calculator_serves n v t serves few in_time none_due no_adds calm runs =
    let feeds = Turns-Feeds n InCalm v serves in
    let jobs = con_jobs (length v.listener.accepted) in
    let inv =
      Feeds-InService n jobs v.threads feeds
        (omega (arith, few, length-con_jobs (length v.listener.accepted)))
        (con_jobs-NotNull (length v.listener.accepted)) in
    let (going, (k, u, ws, drained)) =
      begin_destroy_finishes n v.threads t (Feeds-Reachable n jobs v.threads feeds) inv.on no_adds
        inv.unused calm runs in
    let done : (u : System) → Drained n v.threads.accepted u → Done n v.listener u = λ u d. (
      d.all_finished,
      sym (count-any u.ran)
          ∙ d.each_ran any_job
          ∙ count-any v.threads.accepted
          ∙ ap length inv.taken_in
          ∙ length-con_jobs (length v.listener.accepted),
    ) in
    (
      sym (
          (Listens-InTurn v.listener (Turns-Listens n v serves few) in_time).in_order
          ∙ ap (λ d. v.listener.served ++ left d v.listener.socket) none_due
          ∙ append-nil v.listener.served),
      elim going [ inl can ↦ inl can | inr d ↦ inr (done t d) ],
      (k, u, ws, done u drained),
    )
