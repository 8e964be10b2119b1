-- ===== src/Queue/FreesTests.antt =====
-- Calls on a queue of two places: the third job finds it full, and the fourth has no argument.
use net_calc.Prelude.{ℕ, List, ◌≡◌, refl, true, false, none, some, [], ◌∷◌, map}
use net_calc.Queue.Defs.{Node, Queue, queue_new, queue_enqueue, queue_dequeue}
use net_calc.Queue.Nodes.{
  new_ledger, QueueCall, enqueues, dequeues, make_call, make_calls, slots_freed, freed_at_end,
}
use net_calc.Queue.Frees.{make_calls_frees}

abbrev job : ℕ → Node
job n = record { del_f = 0; task = 7; arg = n }

abbrev two_places : Queue
two_places = record { capacity = 2; size = 0; front = 0; rear = 0; items = none ∷ none ∷ [] }

abbrev script : List QueueCall
script =
    enqueues true (job 5)
    ∷ enqueues true (job 6)
    ∷ enqueues true (job 7)
    ∷ dequeues
    ∷ enqueues true (job 0)
    ∷ enqueues false (job 8)
    ∷ enqueues true (job 9)
    ∷ []

freed_in_order :
    freed_at_end (make_calls script (new_ledger two_places))
    ≡ some (job 5) ∷ some (job 6) ∷ some (job 9) ∷ []
unfolding make_calls make_call queue_enqueue queue_dequeue slots_freed
freed_in_order = refl

make_calls_frees_example :
    freed_at_end (make_calls script (new_ledger two_places))
    ≡ map some (make_calls script (new_ledger two_places)).allocated
unfolding queue_new
make_calls_frees_example = make_calls_frees 2 two_places script refl
