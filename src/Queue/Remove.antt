-- ===== src/Queue/Remove.antt =====
-- `queue_dequeue` and `queue_clear` on a queue that satisfies its invariant.
use native.Mathlib.Nat.{mod-add-mod, mod-lt}
use native.Mathlib.Decide.{ℕ_discrete}
use net_calc.Prelude.{ℕ, zero, suc, ◌+◌, ◌-◌, ◌%◌, ◌<◌, ◌≡◌, ◌∙◌, refl, sym, ap, arith}
use net_calc.Prelude.{
  List, [], ◌∷◌, length, get_or, set, length-set, map, Option, none, some, ◌==◌, if◌then◌else◌,
}
use net_calc.Queue.Span.{span, span-set_outside}
use net_calc.Queue.Refine.{Holds, size-Holds}
use net_calc.Queue.Defs.{
  Queue, Node, queue_dequeue, queue_clear, clear_slots, remove_front, queue_peek,
}
use net_calc.Queue.Fifo

module _ (q : Queue) (job : Node) (jobs : List Node) (h : Holds q (job ∷ jobs)) where
  abbrev rest : List (Option Node)
  rest = span none q.capacity q.items ((q.front + 1) % q.capacity) (q.size - 1)

  held_cons : get_or q.items q.front none ∷ rest ≡ some job ∷ map some jobs
  held_cons = ap (span none q.capacity q.items q.front) size_suc ∙ h.held
    where
      size_suc : suc (q.size - 1) ≡ q.size
      size_suc = omega (arith, size-Holds q (job ∷ jobs) h)

  front_held : get_or q.items q.front none ≡ some job
  front_held = cc held_cons

  rest_held : rest ≡ map some jobs
  rest_held = cc held_cons

  pub peek_front : queue_peek (some q) ≡ some job
  peek_front = ground (arith, front_held, size-Holds q (job ∷ jobs) h)

  removed_held :
      span none q.capacity (set q.items q.front none) ((q.front + 1) % q.capacity) (q.size - 1)
      ≡ map some jobs
  removed_held =
      span-set_outside none q.capacity q.items none q.front (q.size - 1)
        ((q.front + 1) % q.capacity) 1 h.front_lt refl (omega arith)
        (omega (arith, size-Holds q (job ∷ jobs) h, h.size_le))
      ∙ rest_held

  size_jobs : q.size ≡ suc (length jobs)
  size_jobs = size-Holds q (job ∷ jobs) h

  -- The last job removed: the queue starts again at slot 0.
  last-Holds : q.size ≡ 1 → Holds (record (remove_front q) { front = 0; rear = 0 }) jobs
  last-Holds e = record {
    room = h.room;
    slots = length-set q.items q.front none ∙ h.slots;
    size_le = omega (arith, h.size_le);
    front_lt = h.room;
    at_start = λ z. (refl, refl);
    rear_last = λ z. absurd (omega arith);
    held =
        ap (span none q.capacity (set q.items q.front none) 0) none_left
        ∙ sym (
            ap (span none q.capacity (set q.items q.front none) ((q.front + 1) % q.capacity))
              none_left)
        ∙ removed_held;
  }
    where
      none_left : q.size - 1 ≡ 0
      none_left = omega arith

  more-Holds : 1 < q.size → Holds (remove_front q) jobs
  more-Holds p = record {
    room = h.room;
    slots = length-set q.items q.front none ∙ h.slots;
    size_le = omega (arith, h.size_le);
    front_lt = mod-lt (q.front + 1) h.room;
    at_start = λ z. absurd (omega arith);
    rear_last = λ z.
        h.rear_last (omega arith)
        ∙ sym
            (mod-add-mod (q.front + 1) q.capacity (q.size - 1 - 1) ∙ ap (λ k. k % q.capacity) same);
    held = removed_held;
  }
    where
      same : q.front + 1 + (q.size - 1 - 1) ≡ q.front + (q.size - 1)
      same = omega arith

-- On a queue that satisfies its representation invariant and holds a list of jobs, queue_dequeue
-- hands out the oldest job, or nothing if there is none, and leaves a queue of the same capacity
-- that satisfies the invariant and holds the other jobs in order.
pub queue_dequeue_refines :
    (q : Queue) (jobs : List Node)
    → Holds q jobs
    → (q' : Queue) × (queue_dequeue (some q) ≡ ((Fifo.pop jobs).0, some q'))
      × (q'.capacity ≡ q.capacity)
      × Holds q' (Fifo.pop jobs).1
unfolding queue_dequeue Fifo.pop
queue_dequeue_refines q [] h = (q, ground (arith, size-Holds q [] h), refl, h)
queue_dequeue_refines q (job ∷ jobs) h = elim (ℕ_discrete q.size 1) [
  | yes last ↦ (
    record (remove_front q) { front = 0; rear = 0 },
    ground (arith, peek_front q job jobs h),
    refl,
    last-Holds q job jobs h last,
  )
  | no more ↦ (
    remove_front q,
    ground (arith, peek_front q job jobs h, size_jobs q job jobs h),
    refl,
    more-Holds q job jobs h (omega (arith, size_jobs q job jobs h)),
  )
]

-- `queue_clear` leaves a queue that holds nothing, at the same capacity; it fails on an empty queue.
length-clear_slots :
    (left iter front capacity : ℕ) (items : List (Option Node))
    → length (clear_slots left iter front capacity items) ≡ length items
unfolding clear_slots
length-clear_slots zero iter front capacity items = refl
length-clear_slots (suc left) iter front capacity items =
    length-clear_slots left (iter + 1) front capacity (set items ((front + iter) % capacity) none)
    ∙ length-set items ((front + iter) % capacity) none

-- On a queue that satisfies its representation invariant, queue_clear leaves a queue of the same
-- capacity that satisfies it and holds nothing; the status is 1 if the queue was empty and 0
-- otherwise.
pub queue_clear-Holds :
    (q : Queue) (jobs : List Node)
    → Holds q jobs
    → (q' : Queue) × (queue_clear (some q) ≡ ((if length jobs == 0 then 1 else 0), some q'))
      × (q'.capacity ≡ q.capacity)
      × Holds q' []
unfolding queue_clear
queue_clear-Holds q [] h = (q, ground (arith, size-Holds q [] h), refl, h)
queue_clear-Holds q (job ∷ jobs) h = (
  record q {
    size = 0;
    front = 0;
    rear = 0;
    items = clear_slots q.size 0 q.front q.capacity q.items;
  },
  ground (arith, size-Holds q (job ∷ jobs) h),
  refl,
  record {
    room = h.room;
    slots = length-clear_slots q.size 0 q.front q.capacity q.items ∙ h.slots;
    size_le = omega arith;
    front_lt = h.room;
    at_start = λ e. (refl, refl);
    rear_last = λ p. absurd (omega arith);
    held = refl;
  },
)
