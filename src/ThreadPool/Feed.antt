-- ===== src/ThreadPool/Feed.antt =====
-- A pool that one caller feeds with jobs, one call of `threadpool_add_job` after the other.
use net_calc.Prelude.{
  ℕ, suc, ◌≤◌, ◌≡◌, ◌≢◌, ◌∙◌, refl, ap, arith, true, some, List, [], ◌∷◌, ◌++◌, length,
  length-append, get_elem?,
}
use net_calc.Queue.Defs.{Node}
use net_calc.ThreadPool.Defs.{
  System, asleep, Phase, in_use, closing, passes_guard, max_jobs, Work, locked_sleep, locked_take,
  job_done, looked_size, looked_active, signal_one, signal_none, broadcast, work, begin_add,
  locked_add, spurious, Reachable, at_start, next, threadpool_create, enqueue_job, add_job,
  take_job, run_job, sleep, look_size, look_active, wake, broadcast_all,
}
use net_calc.ThreadPool.Order.{from_start}
use net_calc.ThreadPool.Room.{add_job-accepted}

-- `jobs` are those of the calls that have passed the mutex, in order. Memory does not run out, and
-- the pool is not shut down.
pub data Feeds (n : ℕ) : List Node → System → Type 0 where
  fresh : (s : System) → threadpool_create n ≡ some s → Feeds n [] s
  works : (jobs : List Node) (s t : System) → Feeds n jobs s → Work s t → Feeds n jobs t
  wakes :
      (jobs : List Node) (s : System) (i : ℕ)
      → Feeds n jobs s
      → get_elem? s.workers i ≡ some asleep
      → Feeds n jobs (wake i s)
  calls :
      (jobs : List Node) (s : System) (node : Node)
      → Feeds n jobs s
      → s.adding ≡ []
      → passes_guard s.pool node ≡ true
      → Feeds n jobs (record s { adding = node ∷ s.adding })
  adds :
      (jobs : List Node) (s : System) (node : Node)
      → Feeds n jobs s
      → s.adding ≡ node ∷ []
      → Feeds n (jobs ++ (node ∷ [])) (add_job true node [] s)

pub Feeds-Reachable : (n : ℕ) (jobs : List Node) (s : System) → Feeds n jobs s → Reachable n s
Feeds-Reachable n _ s (fresh _ e) = at_start s e
Feeds-Reachable n _ _ (works jobs s t f w) = next s t (Feeds-Reachable n jobs s f) (work s t w)
Feeds-Reachable n _ _ (wakes jobs s i f e) =
    next s (wake i s) (Feeds-Reachable n jobs s f) (spurious s i e)
Feeds-Reachable n _ _ (calls jobs s node f e p) =
    next s (record s { adding = node ∷ s.adding }) (Feeds-Reachable n jobs s f) (begin_add s node p)
Feeds-Reachable n _ _ (adds jobs s node f e) =
    next s (add_job true node [] s) (Feeds-Reachable n jobs s f) (locked_add s true node [] [] e)

-- The pool is in use, and what it has accepted.
pub record InService (accepted : List Node) (s : System) : Type 0 where
  pub on : s.pool.active ≡ 1
  pub unused : s.phase ≡ in_use
  pub taken_in : s.accepted ≡ accepted

closes-not : (ph : Phase) → ph ≡ in_use → ph ≡ closing → ⊥
closes-not ph e f = cc

unchanged :
    (accepted : List Node) (s t : System)
    → InService accepted s
    → t.pool.active ≡ s.pool.active
    → t.phase ≡ s.phase
    → t.accepted ≡ s.accepted
    → InService accepted t
unchanged a s t inv e f g = record {
  on = e ∙ inv.on;
  unused = f ∙ inv.unused;
  taken_in = g ∙ inv.taken_in;
}

take-InService :
    (accepted : List Node) (i : ℕ) (s : System)
    → InService accepted s
    → InService accepted (take_job i s)
unfolding take_job
take-InService accepted i s inv = unchanged accepted s (take_job i s) inv refl refl refl

Work-InService :
    (accepted : List Node) (s t : System) → Work s t → InService accepted s → InService accepted t
unfolding sleep run_job look_size look_active wake broadcast_all
Work-InService a _ _ (locked_sleep s i e p) inv = unchanged a s _ inv refl refl refl
Work-InService a _ _ (locked_take s i e p) inv = take-InService a i s inv
Work-InService a _ _ (job_done s i node e) inv = unchanged a s _ inv refl refl refl
Work-InService a _ _ (looked_size s i e) inv = unchanged a s _ inv refl refl refl
Work-InService a _ _ (looked_active s i e) inv = unchanged a s _ inv refl refl refl
Work-InService a _ _ (signal_one s i k e q) inv = unchanged a s _ inv refl refl refl
Work-InService a _ _ (signal_none s k e q) inv = unchanged a s _ inv refl refl refl
Work-InService a _ _ (broadcast s e) inv = absurd (closes-not s.phase inv.unused e)

-- No job of the list has a NULL argument.
abbrev pub NotNull : List Node → Type 0
NotNull [] = Unit {0}
NotNull (node ∷ nodes) = (node.arg ≢ 0) × NotNull nodes

NotNull-append :
    (nodes : List Node) (node : Node)
    → NotNull (nodes ++ (node ∷ []))
    → NotNull nodes × (node.arg ≢ 0)
NotNull-append [] node (h, _) = (tt, h)
NotNull-append (m ∷ nodes) node (h, rest) =
    let (r, last) = NotNull-append nodes node rest in ((h, r), last)

-- A pool that is fed with at most `max_jobs` jobs, with arguments that are not NULL, is in use and has
-- accepted exactly them, in their order.
pub Feeds-InService :
    (n : ℕ) (jobs : List Node) (s : System)
    → Feeds n jobs s
    → length jobs ≤ max_jobs
    → NotNull jobs
    → InService jobs s
unfolding wake add_job enqueue_job
Feeds-InService n _ s (fresh _ e) few given =
    from_start (InService []) n (λ q h room l. record { on = refl; unused = refl; taken_in = refl })
      s e
Feeds-InService n _ _ (works jobs s t f w) few given =
    Work-InService jobs s t w (Feeds-InService n jobs s f few given)
Feeds-InService n _ _ (wakes jobs s i f e) few given =
    unchanged jobs s _ (Feeds-InService n jobs s f few given) refl refl refl
Feeds-InService n _ _ (calls jobs s node f e p) few given =
    unchanged jobs s _ (Feeds-InService n jobs s f few given) refl refl refl
Feeds-InService n _ _ (adds jobs s node f e) few given =
    let (given', some_arg) = NotNull-append jobs node given in
    let fewer : suc (length jobs) ≤ max_jobs = omega (arith, few, length-append jobs (node ∷ [])) in
    let inv = Feeds-InService n jobs s f (omega (arith, fewer)) given' in
    record {
      on = inv.on;
      unused = inv.unused;
      taken_in =
          add_job-accepted n s node [] (Feeds-Reachable n jobs s f)
            (omega (arith, fewer, ap length inv.taken_in)) some_arg
          ∙ ap (λ l. l ++ (node ∷ [])) inv.taken_in;
    }
