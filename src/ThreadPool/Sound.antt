-- ===== src/ThreadPool/Sound.antt =====
-- What keeps a state sound: no wake-up is lost and no thread leaves early.
use net_calc.Prelude.{
  ℕ, ◌≤◌, ◌<◌, ◌≡◌, ◌≢◌, ◌⊎◌, ◌∙◌, inl, inr, refl, ap, arith, true, false, ◌&&◌, not, Option, none,
  some, List,
}
use net_calc.Prelude.{◌==◌, length, length-set, get_elem?, set, Bool-cases, ltb, ltb→lt}
use net_calc.Queue.Defs.{Node, Queue}
use net_calc.ThreadPool.Defs.{
  System, Worker, waiting, asleep, running, deciding, saw_empty, finished, Phase, in_use, closing,
  joining, take_result,
}
use net_calc.ThreadPool.Count.{
  total, total-set, total_find, asleep_one, finished_one, awake_one, is_asleep, le-total-set,
  one_of_three,
}

-- Where `threadpool_destroy` is, with the flag and the number of threads that sleep.
abbrev pub Phases : Phase → ℕ → ℕ → Type 0
Phases phase active sleepers =
    (phase ≡ in_use)
    ⊎ (((phase ≡ closing) × (active ≡ 0)) ⊎ ((phase ≡ joining) × (active ≡ 0) × (sleepers ≡ 0)))

-- There is no job, or a signal is due, or a thread is under way.
abbrev pub Alert : ℕ → ℕ → ℕ → Type 0
Alert size signalling awake = (size ≡ 0) ⊎ ((0 < signalling) ⊎ (0 < awake))

pub record Sound (n : ℕ) (s : System) : Type 0 where
  pub threads : length s.workers ≡ n
  pub some_thread : 0 < n
  pub flag : s.pool.active ≤ 1
  pub stays : s.pool.active ≡ 1 → total finished_one s.workers ≡ 0
  pub alert :
      s.pool.active ≡ 1 → Alert s.pool.job_pool.size s.signalling (total awake_one s.workers)
  pub phases : Phases s.phase s.pool.active (total asleep_one s.workers)

Phases-le : (ph : Phase) (a k k' : ℕ) → k' ≤ k → Phases ph a k → Phases ph a k'
Phases-le ph a k k' le (inl e) = inl e
Phases-le ph a k k' le (inr (inl p)) = inr (inl p)
Phases-le ph a k k' le (inr (inr (e, f, g))) = inr (inr (e, f, omega arith))

pub Phases-active : (ph : Phase) (a k k' : ℕ) → a ≡ 1 → Phases ph a k → Phases ph a k'
Phases-active ph a k k' e (inl p) = inl p
Phases-active ph a k k' e (inr (inl (p, q))) = absurd (omega arith)
Phases-active ph a k k' e (inr (inr (p, q, r))) = absurd (omega arith)

pub idle_pool :
    (size active : ℕ) → not (size == 0 && active == 1) ≡ false → (size ≡ 0) × (active ≡ 1)
idle_pool size active e = ground arith

-- A thread goes from one place of the loop to another one where it is awake.
pub move-Sound :
    (n : ℕ) (s : System) (i : ℕ) (w w' : Worker) (signalling : ℕ) (q : Queue) (jobs ran : List Node)
    → get_elem? s.workers i ≡ some w
    → finished_one w' ≡ 0
    → awake_one w' ≡ 1
    → Sound n s
    → Sound n (record s {
      pool = record { job_pool = q; active = s.pool.active };
      workers = set s.workers i w';
      signalling = signalling;
      taken = jobs;
      ran = ran;
    })
move-Sound n s i w w' signalling q jobs ran e stays awake inv = record {
  threads = length-set s.workers i w' ∙ inv.threads;
  some_thread = inv.some_thread;
  flag = inv.flag;
  stays = λ a. omega (arith, stays, inv.stays a, total-set finished_one s.workers i w w' e);
  alert = λ a. inr (inr (omega (arith, awake, le-total-set awake_one s.workers i w w' e)));
  phases =
      Phases-le s.phase s.pool.active _ _
        (omega (arith, one_of_three w', awake, total-set asleep_one s.workers i w w' e)) inv.phases;
}

pub take-Sound :
    (n : ℕ) (s : System) (i : ℕ)
    → get_elem? s.workers i ≡ some waiting
    → Sound n s
    → (r : Option Node × Option Queue) → Sound n (take_result i s r)
take-Sound n s i e inv (none, q) =
    move-Sound n s i waiting deciding s.signalling _ _ _ e refl refl inv
take-Sound n s i e inv (some node, q) =
    move-Sound n s i waiting (running node) s.signalling _ _ _ e refl refl inv

pub none_asleep :
    (s : System) → ((i : ℕ) → get_elem? s.workers i ≢ some asleep) → total asleep_one s.workers ≡ 0
none_asleep s awake = elim (Bool-cases (ltb 0 (total asleep_one s.workers))) [
  | inl some_asleep ↦
      let (i, w, at_i, counts) =
        total_find asleep_one s.workers (ltb→lt 0 (total asleep_one s.workers) some_asleep) in
      absurd (awake i (at_i ∙ ap some (is_asleep w counts)))
  | inr zero_asleep ↦ not_above (total asleep_one s.workers) zero_asleep
]
  where
    not_above : (k : ℕ) → ltb 0 k ≡ false → k ≡ 0
    not_above k e = ground arith

pub Phases-closing : (ph : Phase) (a k : ℕ) → ph ≡ closing → Phases ph a k → a ≡ 0
Phases-closing ph a k e (inl p) = absurd (cc)
Phases-closing ph a k e (inr (inl (p, q))) = q
Phases-closing ph a k e (inr (inr (p, q, r))) = q

inactive : (a : ℕ) → (a == 0) ≡ true → a ≡ 0
inactive a e = ground arith

pub leave-Sound :
    (n : ℕ) (s : System) (i : ℕ)
    → get_elem? s.workers i ≡ some saw_empty
    → (s.pool.active == 0) ≡ true
    → Sound n s
    → Sound n (record s { workers = set s.workers i finished })
leave-Sound n s i e off inv =
    let off' = inactive s.pool.active off in
    record {
      threads = length-set s.workers i finished ∙ inv.threads;
      some_thread = inv.some_thread;
      flag = inv.flag;
      stays = λ a. absurd (omega arith);
      alert = λ a. absurd (omega arith);
      phases =
          Phases-le s.phase s.pool.active _ _
            (omega (arith, total-set asleep_one s.workers i saw_empty finished e)) inv.phases;
    }
