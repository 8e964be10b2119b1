-- ===== src/ThreadPool/Simulate.antt =====
-- Every step of the threads and of the callers is a move of the executor, or none.
use net_calc.Prelude.{
  ℕ, ◌<◌, ◌≤◌, ◌≡◌, ◌≢◌, ◌⊎◌, ◌∙◌, refl, sym, ap, subst, arith, inl, inr, Bool, true, false,
  Bool-cases, some, List, [], ◌∷◌, ◌++◌, length, get_elem?, ◌==◌, if◌then◌else◌,
}
use net_calc.Queue.Defs.{Node}
use net_calc.Queue.Fifo
use net_calc.Queue.Refine.{Holds, size-Holds, queue_enqueue_refines}
use net_calc.Queue.Remove.{queue_dequeue_refines}
use net_calc.ThreadPool.Defs.{
  System, Worker, waiting, asleep, running, deciding, saw_empty, finished, Work, locked_sleep,
  locked_take, job_done, looked_size, looked_active, signal_one, signal_none, broadcast, Step, work,
  begin_add, locked_add, spurious, shutdown, destroy, Reachable, at_start, next, enqueue_job,
  queue_after, add_job, take_job, take_result, run_job, sleep, look_size, look_active, wake,
  broadcast_all, threadpool_shutdown, begin_destroy,
}
use net_calc.ThreadPool.Order.{refused}
use net_calc.ThreadPool.Room.{Roomy, Reachable-Roomy}
use net_calc.ThreadPool.Executor.{
  Executor, Executes, at_idle, goes_on, idle, Moves, stays, takes_in, hands_out, ends,
}
use net_calc.ThreadPool.Represent.{
  job_of, running_jobs-woken, around, moved, Represents, Moved, still, start-Represents,
}

take-Moved :
    (i : ℕ) (s : System) (jobs inp over : List Node)
    → get_elem? s.workers i ≡ some waiting
    → Represents s (record { queued = jobs; in_progress = inp; ended = over })
    → Moved (take_job i s) (record { queued = jobs; in_progress = inp; ended = over })
unfolding take_job Fifo.pop
take-Moved i s [] inp over at_i r =
    let (q, e, _, h) = queue_dequeue_refines s.pool.job_pool [] r.holds in
    subst (λ o. Moved (take_result i s o) (record { queued = []; in_progress = inp; ended = over }))
      (sym e)
      (
        record { queued = []; in_progress = inp; ended = over },
        stays (record { queued = []; in_progress = inp; ended = over }),
        record {
          holds = h;
          runs = r.runs ∙ sym (moved s.workers i waiting deciding at_i refl refl);
          over = r.over;
        },
      )
take-Moved i s (node ∷ jobs) inp over at_i r =
    let (q, e, _, h) = queue_dequeue_refines s.pool.job_pool (node ∷ jobs) r.holds in
    let (before, after, now, later) = around s.workers i waiting at_i in
    subst
      (λ o.
        Moved (take_result i s o)
          (record { queued = node ∷ jobs; in_progress = inp; ended = over }))
      (sym e)
      (subst
        (λ p.
          Moved (take_result i s (some node, some q))
            (record { queued = node ∷ jobs; in_progress = p; ended = over }))
        (sym (r.runs ∙ now))
        (
          record { queued = jobs; in_progress = before ++ (node ∷ after); ended = over },
          hands_out node jobs before after over,
          record { holds = h; runs = sym (later (running node)); over = r.over },
        ))

run-Moved :
    (i : ℕ) (node : Node) (s : System) (e : Executor)
    → get_elem? s.workers i ≡ some (running node)
    → Represents s e
    → Moved (run_job i node s) e
unfolding run_job
run-Moved i node s e at_i r =
    let (before, after, now, later) = around s.workers i (running node) at_i in
    subst
      (λ p.
        Moved (run_job i node s) (record { queued = e.queued; in_progress = p; ended = e.ended }))
      (sym (r.runs ∙ now))
      (
        record { queued = e.queued; in_progress = before ++ after; ended = e.ended ++ (node ∷ []) },
        ends node e.queued before after e.ended,
        record {
          holds = r.holds;
          runs = sym (later deciding);
          over = ap (λ l. l ++ (node ∷ [])) r.over;
        },
      )

pushed :
    (capacity : ℕ) (jobs : List Node) (node : Node)
    → length jobs ≤ capacity
    → (Fifo.push capacity jobs node ≡ jobs)
      ⊎ ((length jobs < capacity)
          × (node.arg ≢ 0)
          × (Fifo.push capacity jobs node ≡ jobs ++ (node ∷ [])))
unfolding Fifo.push
pushed capacity jobs node fits = elim (Bool-cases (length jobs == capacity)) [
  | inl full ↦ inl (rw full refl)
  | inr room ↦ elim (Bool-cases (node.arg == 0)) [
    | inl null ↦ inl (rw (room, null) refl)
    | inr job ↦ inr (ground arith, ground arith, rw (room, job) refl)
  ]
]

add-Moved :
    (allocated : Bool) (node : Node) (others : List Node) (s : System) (e : Executor)
    → Roomy s
    → Represents s e
    → Moved (add_job allocated node others s) e
unfolding add_job enqueue_job
add-Moved false node others s e room r =
    still s _ e r (ap (queue_after s.pool.job_pool) (refused s.pool.job_pool node)) refl refl
add-Moved true node others s e room r =
    let (q, made, _, h) = queue_enqueue_refines s.pool.job_pool e.queued node r.holds in
    let fits : length e.queued ≤ s.pool.job_pool.capacity =
      omega (arith, r.holds.size_le, size-Holds s.pool.job_pool e.queued r.holds) in
    elim (pushed s.pool.job_pool.capacity e.queued node fits) [
      | inl same ↦ (
        e,
        stays e,
        record { holds = rw made (subst (Holds q) same h); runs = r.runs; over = r.over },
      )
      | inr (few, some_arg, more) ↦ (
        record e { queued = e.queued ++ (node ∷ []) },
        takes_in e node (omega (arith, few, room)) some_arg,
        record { holds = rw made (subst (Holds q) more h); runs = r.runs; over = r.over },
      )
    ]

jobless :
    (b : Bool) (v w : Worker) → job_of v ≡ [] → job_of w ≡ [] → job_of (if b then v else w) ≡ []
jobless true v w e f = e
jobless false v w e f = f

Work-Moved : (s t : System) (e : Executor) → Work s t → Represents s e → Moved t e
unfolding sleep look_size look_active wake broadcast_all
Work-Moved _ _ e (locked_sleep s i at_i p) r =
    still s _ e r refl (moved s.workers i waiting asleep at_i refl refl) refl
Work-Moved _ _ e (locked_take s i at_i p) r = take-Moved i s e.queued e.in_progress e.ended at_i r
Work-Moved _ _ e (job_done s i node at_i) r = run-Moved i node s e at_i r
Work-Moved _ _ e (looked_size s i at_i) r =
    still s _ e r refl
      (moved s.workers i deciding _ at_i refl
        (jobless (s.pool.job_pool.size == 0) saw_empty waiting refl refl))
      refl
Work-Moved _ _ e (looked_active s i at_i) r =
    still s _ e r refl
      (moved s.workers i saw_empty _ at_i refl
        (jobless (s.pool.active == 0) finished waiting refl refl))
      refl
Work-Moved _ _ e (signal_one s i k due at_i) r =
    still s _ e r refl (moved s.workers i asleep waiting at_i refl refl) refl
Work-Moved _ _ e (signal_none s k due nobody) r = still s _ e r refl refl refl
Work-Moved _ _ e (broadcast s closes) r = still s _ e r refl (running_jobs-woken s.workers) refl

-- The pool refines an executor that has no threads, only the jobs that wait, oldest first, those
-- that run and those that have ended: if a reachable state of the pool represents a state of the
-- executor (its queue holds the waiting jobs, its threads run the running ones, and the jobs
-- that were run are the ended ones), then after every step of a thread, a signal or a caller the
-- pool represents a state that the executor has moved to or stayed in, where a move takes in a
-- job with an argument that is not NULL behind the waiting ones, fewer than 200, hands out the
-- oldest, or ends one that runs.
pub Step-Moves :
    (n : ℕ) (s t : System) (e : Executor)
    → Reachable n s
    → Step s t
    → Represents s e
    → (e' : Executor) × Moves e e' × Represents t e'
unfolding wake threadpool_shutdown begin_destroy
Step-Moves n _ _ e reached (work s t w) r = Work-Moved s t e w r
Step-Moves n _ _ e reached (begin_add s node p) r = still s _ e r refl refl refl
Step-Moves n _ _ e reached (locked_add s allocated node before after p) r =
    add-Moved allocated node (before ++ after) s e (Reachable-Roomy n s reached) r
Step-Moves n _ _ e reached (spurious s i at_i) r =
    still s _ e r refl (moved s.workers i asleep waiting at_i refl refl) refl
Step-Moves n _ _ e reached (shutdown s) r = still s _ e r refl refl refl
Step-Moves n _ _ e reached (destroy s unused) r = still s _ e r refl refl refl

-- Every state that the threads reach represents one that the executor comes to.
pub Reachable-Executes :
    (n : ℕ) (s : System) → Reachable n s → (e : Executor) × Executes e × Represents s e
Reachable-Executes n s (at_start _ e) = (idle, at_idle, start-Represents n s e)
Reachable-Executes n t (next s _ r step) =
    let (e, run, rep) = Reachable-Executes n s r in
    let (e', move, rep') = Step-Moves n s t e r step rep in (e', goes_on e e' run move, rep')
