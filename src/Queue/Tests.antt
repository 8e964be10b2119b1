-- ===== src/Queue/Tests.antt =====
-- Runs of the queue, and the theorems at concrete queues.
use net_calc.Prelude.{ℕ, ◌≡◌, refl, arith, true, some, none, [], ◌∷◌}
use net_calc.Queue.Defs.{Queue, Node, queue_enqueue, queue_dequeue, queue_clear}
use net_calc.Queue.Fifo
use net_calc.Queue.Refine.{Holds}
use net_calc.Queue.Contract.{queue_refines}

abbrev job : ℕ → Node
job n = record { del_f = 0; task = 7; arg = n }

-- Two jobs round the end of three slots.
abbrev wrapped : Queue
wrapped = record {
  capacity = 3;
  size = 2;
  front = 2;
  rear = 0;
  items = some (job 6) ∷ none ∷ some (job 5) ∷ [];
}

wrapped-Holds : Holds wrapped (job 5 ∷ job 6 ∷ [])
wrapped-Holds = record {
  room = omega arith;
  slots = refl;
  size_le = omega arith;
  front_lt = omega arith;
  at_start = λ e. absurd (omega arith);
  rear_last = λ p. refl;
  held = refl;
}

-- A job joins the others, and the status is 0.
enqueue_wrapped : (queue_enqueue true (some wrapped) 7 0 8).0 ≡ 0
unfolding queue_enqueue
enqueue_wrapped = refl

queue_refines_example :
    ((q : Queue) × (queue_enqueue true (some wrapped) 7 0 8 ≡ (0, some q))
      × (q.capacity ≡ 3)
      × Holds q (job 5 ∷ job 6 ∷ job 8 ∷ []))
    × ((q : Queue) × (queue_dequeue (some wrapped) ≡ (some (job 5), some q))
        × (q.capacity ≡ 3)
        × Holds q (job 6 ∷ []))
    × ((q : Queue) × (queue_clear (some wrapped) ≡ (0, some q)) × (q.capacity ≡ 3) × Holds q [])
unfolding Fifo.push Fifo.pop
queue_refines_example = queue_refines wrapped (job 5 ∷ job 6 ∷ []) (job 8) wrapped-Holds
