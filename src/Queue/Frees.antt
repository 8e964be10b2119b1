-- ===== src/Queue/Frees.antt =====
-- Every node of the queue is freed once.
use native.Mathlib.Nat.{mod-add-mod, mod-eq_of_lt, add-zero}
use net_calc.Prelude.{
  ℕ, zero, suc, ◌+◌, ◌%◌, ◌≤◌, ◌<◌, ◌≡◌, ◌∙◌, refl, sym, ap, subst, arith, inl, inr, Bool, true,
  false, Bool-cases, Option, none, some, List, [], ◌∷◌, ◌++◌, map, length, append-nil, append_assoc,
  get_or, set, ◌==◌,
}
use net_calc.Queue.Defs.{Node, Queue, queue_new, queue_enqueue, queue_peek}
use net_calc.Queue.Fifo
use net_calc.Queue.Span.{span, span-set_outside}
use net_calc.Queue.Refine.{Holds, size-Holds, queue_new-Holds, queue_enqueue_refines}
use net_calc.Queue.Remove.{peek_front, queue_dequeue_refines, queue_clear-Holds}
use net_calc.Queue.Nodes.{
  Ledger, new_ledger, behind, node_allocated, node_freed, slots_freed, clear_freed, QueueCall,
  enqueues, dequeues, clears, make_call, make_calls, freed_at_end,
}

slots_freed-span :
    (left iter front cap : ℕ) (items : List (Option Node))
    → 0 < cap
    → left ≤ cap
    → slots_freed left iter front cap items ≡ span none cap items ((front + iter) % cap) left
unfolding slots_freed
slots_freed-span zero iter front cap items room fits = refl
slots_freed-span (suc left) iter front cap items room fits =
    ap (λ l. get_or items ((front + iter) % cap) none ∷ l)
      (slots_freed-span left (iter + 1) front cap (set items ((front + iter) % cap) none) room
          (omega arith)
        ∙ ap (λ h. span none cap (set items ((front + iter) % cap) none) h left) on
        ∙ span-set_outside none cap items none ((front + iter) % cap) left
            (((front + iter) % cap + 1) % cap) 1 (omega arith) refl (omega arith) (omega arith))
  where
    next : (a b : ℕ) → a + (b + 1) ≡ a + b + 1
    next a b = omega arith

    on : (front + (iter + 1)) % cap ≡ ((front + iter) % cap + 1) % cap
    on = ap (λ k. k % cap) (next front iter) ∙ sym (mod-add-mod (front + iter) cap 1)

clear_freed-Holds : (q : Queue) (jobs : List Node) → Holds q jobs → clear_freed q ≡ map some jobs
clear_freed-Holds q [] h = ground (arith, size-Holds q [] h)
clear_freed-Holds q (job ∷ jobs) h =
    let some_jobs : (q.size == 0) ≡ false = ground (arith, size-Holds q (job ∷ jobs) h) in
    rw some_jobs (
      slots_freed-span q.size 0 q.front q.capacity q.items h.room h.size_le
      ∙ ap (λ k. span none q.capacity q.items k q.size) (in_place q.front h.front_lt)
      ∙ h.held)
  where
    in_place : (k : ℕ) → k < q.capacity → (k + 0) % q.capacity ≡ k
    in_place k fits = rw (add-zero, mod-eq_of_lt fits) refl

-- The nodes that were freed and those of the queue are the allocated ones, oldest first.
abbrev pub Accounts : Ledger → Type 0
Accounts l =
    (jobs : List Node) × Holds l.queue jobs × (map some l.allocated ≡ l.freed ++ map some jobs)

map-some-append : (a b : List Node) → map some (a ++ b) ≡ map some a ++ map some b
map-some-append [] b = refl
map-some-append (x ∷ a) b = ap (λ l. some x ∷ l) (map-some-append a b)

-- What `calloc` gave is what the queue has taken in.
allocated-push :
    (q : Queue) (jobs : List Node) (node : Node)
    → Holds q jobs
    → Fifo.push q.capacity jobs node ≡ jobs ++ node_allocated true q node
unfolding Fifo.push
allocated-push q jobs node h = elim (Bool-cases (length jobs == q.capacity)) [
  | inl full ↦ not_pushed full ∙ none_taken full
  | inr room ↦ elim (Bool-cases (node.arg == 0)) [
    | inl null ↦ null_pushed room null ∙ sym (none_given null)
    | inr job ↦ is_pushed room job ∙ (ap (λ m. jobs ++ m) (sym (one_taken room job)))
  ]
]
  where
    not_pushed : (length jobs == q.capacity) ≡ true → Fifo.push q.capacity jobs node ≡ jobs
    not_pushed full = rw full refl

    null_pushed :
        (length jobs == q.capacity) ≡ false
        → (node.arg == 0) ≡ true
        → Fifo.push q.capacity jobs node ≡ jobs
    null_pushed room null = rw (room, null) refl

    is_pushed :
        (length jobs == q.capacity) ≡ false
        → (node.arg == 0) ≡ false
        → Fifo.push q.capacity jobs node ≡ jobs ++ (node ∷ [])
    is_pushed room job = rw (room, job) refl

    none_taken : (length jobs == q.capacity) ≡ true → jobs ≡ jobs ++ node_allocated true q node
    none_taken full =
        sym (append-nil jobs) ∙ ap (λ m. jobs ++ m) (ground (arith, size-Holds q jobs h))

    none_given : (node.arg == 0) ≡ true → jobs ++ node_allocated true q node ≡ jobs
    none_given null = ap (λ m. jobs ++ m) (ground arith) ∙ append-nil jobs

    one_taken :
        (length jobs == q.capacity) ≡ false
        → (node.arg == 0) ≡ false
        → node_allocated true q node ≡ node ∷ []
    one_taken room job = ground (arith, size-Holds q jobs h)

peek-Fifo : (q : Queue) (jobs : List Node) → Holds q jobs → queue_peek (some q) ≡ (Fifo.pop jobs).0
unfolding Fifo.pop
peek-Fifo q [] h = ground (arith, size-Holds q [] h)
peek-Fifo q (job ∷ jobs) h = peek_front q job jobs h

refused :
    (q : Queue) (node : Node)
    → (queue_enqueue false (some q) node.task node.del_f node.arg).1 ≡ some q
unfolding queue_enqueue
refused q node = ground arith

none_allocated : (q : Queue) (node : Node) → node_allocated false q node ≡ []
none_allocated q node = ground arith

enqueues-Accounts :
    (has_memory : Bool) (node : Node) (l : Ledger)
    → Accounts l
    → Accounts (make_call (enqueues has_memory node) l)
unfolding make_call
enqueues-Accounts false node l (jobs, h, split) = (
  jobs,
  subst (λ o. Holds (behind l.queue o) jobs) (sym (refused l.queue node)) h,
  ap (map some) (ap (λ m. l.allocated ++ m) (none_allocated l.queue node) ∙ append-nil l.allocated)
      ∙ split,
)
enqueues-Accounts true node l (jobs, h, split) =
    let (q, made, _, h') = queue_enqueue_refines l.queue jobs node h in
    (
      jobs ++ node_allocated true l.queue node,
      rw made (subst (Holds q) (allocated-push l.queue jobs node h) h'),
      map-some-append l.allocated (node_allocated true l.queue node)
          ∙ ap (λ m. m ++ map some (node_allocated true l.queue node)) split
          ∙ append_assoc l.freed (map some jobs) (map some (node_allocated true l.queue node))
          ∙ ap (λ m. l.freed ++ m) (sym (map-some-append jobs (node_allocated true l.queue node))),
    )

dequeues-Accounts : (l : Ledger) → Accounts l → Accounts (make_call dequeues l)
unfolding make_call Fifo.pop
dequeues-Accounts l ([], h, split) =
    let (q, made, _, h') = queue_dequeue_refines l.queue [] h in
    ([], rw made h', freed_first (queue_peek (some l.queue)) (peek-Fifo l.queue [] h))
  where
    freed_first :
        (o : Option Node) → o ≡ none → map some l.allocated ≡ (l.freed ++ node_freed o) ++ []
    freed_first o e = rw e (split ∙ sym (append_assoc l.freed [] []))
dequeues-Accounts l (job ∷ jobs, h, split) =
    let (q, made, _, h') = queue_dequeue_refines l.queue (job ∷ jobs) h in
    (jobs, rw made h', freed_first (queue_peek (some l.queue)) (peek-Fifo l.queue (job ∷ jobs) h))
  where
    freed_first :
        (o : Option Node)
        → o ≡ some job
        → map some l.allocated ≡ (l.freed ++ node_freed o) ++ map some jobs
    freed_first o e = rw e (split ∙ sym (append_assoc l.freed (some job ∷ []) (map some jobs)))

clears-Accounts : (l : Ledger) → Accounts l → Accounts (make_call clears l)
unfolding make_call
clears-Accounts l (jobs, h, split) =
    let (q, made, _, h') = queue_clear-Holds l.queue jobs h in
    (
      [],
      rw made h',
      split
          ∙ ap (λ m. l.freed ++ m) (sym (clear_freed-Holds l.queue jobs h))
          ∙ sym (append-nil (l.freed ++ clear_freed l.queue)),
    )

make_calls-Accounts :
    (calls : List QueueCall) (l : Ledger) → Accounts l → Accounts (make_calls calls l)
unfolding make_calls
make_calls-Accounts [] l inv = inv
make_calls-Accounts (enqueues has_memory node ∷ calls) l inv =
    make_calls-Accounts calls _ (enqueues-Accounts has_memory node l inv)
make_calls-Accounts (dequeues ∷ calls) l inv = make_calls-Accounts calls _ (dequeues-Accounts l inv)
make_calls-Accounts (clears ∷ calls) l inv = make_calls-Accounts calls _ (clears-Accounts l inv)

made-Holds : (capacity : ℕ) (q : Queue) → queue_new true true capacity ≡ some q → Holds q []
unfolding queue_new
made-Holds capacity q made = elim (Bool-cases (capacity == 0)) [
  | inl nothing ↦ absurd (no_queue nothing made)
  | inr something ↦
      let (p, made', _, h) = queue_new-Holds capacity (ground arith) in
      subst (λ r. Holds r []) (same p (sym made' ∙ made)) h
]
  where
    no_queue : (capacity == 0) ≡ true → queue_new true true capacity ≡ some q → ⊥
    no_queue nothing e = absurd (ground (arith, nothing, e))

    same : (p : Queue) → some p ≡ some q → p ≡ q
    same p e = cc

-- After any calls of queue_enqueue, queue_dequeue and queue_clear on a queue that queue_new has
-- made, whether calloc succeeds or not, the nodes that the calls have freed and then those that
-- queue_destroy frees are exactly the nodes that calloc has given, each once and in the order in
-- which they were made.
pub make_calls_frees :
    (capacity : ℕ) (q : Queue) (calls : List QueueCall)
    → queue_new true true capacity ≡ some q
    → freed_at_end (make_calls calls (new_ledger q))
      ≡ map some (make_calls calls (new_ledger q)).allocated
make_calls_frees capacity q calls made =
    let l = make_calls calls (new_ledger q) in
    let (jobs, h, split) =
      make_calls-Accounts calls (new_ledger q) ([], made-Holds capacity q made, refl) in
    ap (λ m. l.freed ++ m) (clear_freed-Holds l.queue jobs h) ∙ sym split
