-- ===== src/ThreadPool/Release.antt =====
-- What `threadpool_create` makes is released, by itself or by `threadpool_destroy`.
use net_calc.Prelude.{
  ℕ, ◌≡◌, inl, inr, ltb, refl, arith, Bool, true, false, Option, none, some, List, Bool-cases, ◌==◌,
  if◌then◌else◌,
}
use net_calc.Queue.Defs.{Queue, queue_new}
use net_calc.ThreadPool.Defs.{System}
use net_calc.ThreadPool.Created.{empty, outcomes}
use net_calc.ThreadPool.Tally.{
  tally, making, releasing, starting, joining, between, tally-append, tally-quiet,
  tally-start_threads, tally-join_threads, starting-start_threads, joining-join_threads,
}
use net_calc.ThreadPool.Create.{
  joins, Piece, pool_piece, queue_piece, handles_piece, mutex_piece, condition_piece, Call, Parts,
  Outcomes, Creation, failed_start, five_made, all_released, start_threads, started,
  threadpool_create_with, join_threads, finish_destroy,
}

abbrev pub below : ℕ → ℕ → ℕ
below i n = if ltb i n then 1 else 0

-- A creation that fails has released what memory it took and joined no thread. One that succeeds has
-- made every piece once and started each thread once, and `threadpool_destroy`, with no error from
-- the mutex and the condition, releases every piece once and joins each thread once.
abbrev pub SettledCalls : ℕ → List Call → Option System → Type 0
SettledCalls n calls none =
    (tally (making pool_piece) calls ≡ tally (releasing pool_piece) calls)
    × (tally (making queue_piece) calls ≡ tally (releasing queue_piece) calls)
    × (tally (making handles_piece) calls ≡ tally (releasing handles_piece) calls)
    × ((i : ℕ) → tally (joining i) calls ≡ 0)
SettledCalls n calls (some s) =
    ((p : Piece)
      → (tally (making p) calls ≡ 1)
        × (tally (releasing p) calls ≡ 0)
        × (tally (making p) (finish_destroy 0 0 n).0 ≡ 0)
        × (tally (releasing p) (finish_destroy 0 0 n).0 ≡ 1))
    × ((i : ℕ)
        → (tally (starting i) calls ≡ below i n)
          × (tally (joining i) (finish_destroy 0 0 n).0 ≡ below i n))

abbrev pub Settled : ℕ → Creation → Type 0
Settled n c = SettledCalls n c.calls c.pool

once_made : (p : Piece) → tally (making p) five_made ≡ 1
once_made pool_piece = refl
once_made queue_piece = refl
once_made handles_piece = refl
once_made mutex_piece = refl
once_made condition_piece = refl

once_released : (p : Piece) → tally (releasing p) all_released ≡ 1
once_released pool_piece = refl
once_released queue_piece = refl
once_released handles_piece = refl
once_released mutex_piece = refl
once_released condition_piece = refl

from_0 : (n i : ℕ) → between 0 n i ≡ below i n
from_0 n i = ground arith

started-Settled :
    (n : ℕ) (q : Queue) (r : List Call × Bool)
    → ((p : Piece) → tally (making p) r.0 ≡ 0)
    → ((p : Piece) → tally (releasing p) r.0 ≡ 0)
    → ((i : ℕ) → tally (joining i) r.0 ≡ 0)
    → (r.1 ≡ true → (i : ℕ) → tally (starting i) r.0 ≡ between 0 n i)
    → Settled n
        (started five_made (record { thread_count = n; job_pool_p = some q; threads_p = true }) q r)
unfolding failed_start finish_destroy
started-Settled n q (more, false) made released joined begun =
    let parts : Parts = record { thread_count = n; job_pool_p = some q; threads_p = true } in
    let makes_none = λ (p : Piece). tally-quiet (making p) more (failed_start parts) (made p) in
    let frees = λ (p : Piece). tally-quiet (releasing p) more (failed_start parts) (released p) in
    (
      omega (arith, makes_none pool_piece, frees pool_piece),
      omega (arith, makes_none queue_piece, frees queue_piece),
      omega (arith, makes_none handles_piece, frees handles_piece),
      λ i. omega (arith, tally-quiet (joining i) more (failed_start parts) (joined i)),
    )
started-Settled n q (more, true) made released joined begun =
    let quiet = λ (f : Call → ℕ). λ (z : (i : ℕ) → f (joins i) ≡ 0).
      tally-quiet f (join_threads n 0) all_released (tally-join_threads f n 0 z) in
    (
      λ p. (
        omega (arith, once_made p, made p),
        omega (arith, released p),
        omega (arith, quiet (making p) (λ i. refl)),
        omega (arith, quiet (releasing p) (λ i. refl), once_released p),
      ),
      λ i. (
        omega (arith, begun refl i, from_0 n i),
        omega (
          arith,
          tally-append (joining i) (join_threads n 0) all_released,
          joining-join_threads n 0 i,
          from_0 n i,
        ),
      ),
    )

outcomes-Settled :
    (n : ℕ) (f : ℕ → Bool) (a b c d : Bool)
    → (n == 0) ≡ false
    → Settled n (threadpool_create_with n (outcomes f a b c d))
unfolding threadpool_create_with queue_new failed_start
outcomes-Settled n f false b c d e = rw e (refl, refl, refl, λ i. refl)
outcomes-Settled n f true false c d e = rw e (refl, refl, refl, λ i. refl)
outcomes-Settled n f true true false d e = rw e (refl, refl, refl, λ i. refl)
outcomes-Settled n f true true true false e = rw e (refl, refl, refl, λ i. refl)
outcomes-Settled n f true true true true e = rw e (
    started-Settled n empty (start_threads f n 0)
      (λ p. tally-start_threads (making p) f n 0 (λ i. refl))
      (λ p. tally-start_threads (releasing p) f n 0 (λ i. refl))
      (λ i. tally-start_threads (joining i) f n 0 (λ j. refl))
      (λ all i. starting-start_threads f n 0 i all))

-- For every number of threads and whatever the allocations and pthread_create bring: a call of
-- threadpool_create that returns NULL has freed the pool, the queue and the array of handles as
-- often as it has made them, and joined no thread; one that returns a pool has made these, the
-- mutex and the condition once each and released none, and started each of its threads once, and
-- threadpool_destroy, if the mutex and the condition are destroyed without an error, joins each
-- thread once and releases each of the five once.
pub threadpool_create_with-Settled : (n : ℕ) (o : Outcomes) → Settled n (threadpool_create_with n o)
unfolding threadpool_create_with
threadpool_create_with-Settled n o = elim (Bool-cases (n == 0)) [
  | inl e ↦ rw e (refl, refl, refl, λ i. refl)
  | inr e ↦
      outcomes-Settled n o.thread_created o.pool_allocated o.queue_allocated o.items_allocated
        o.threads_allocated e
]
