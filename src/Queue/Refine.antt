-- ===== src/Queue/Refine.antt =====
-- A queue that satisfies its representation invariant behaves as the list of the jobs it holds.
use native.Mathlib.Numerals.{add-one}
use native.Mathlib.Decide.{ℕ_discrete}
use native.Mathlib.Nat.{mod-add-mod, mod-eq_of_lt}
use net_calc.Prelude.{
  ℕ, suc, ◌+◌, ◌-◌, ◌%◌, ◌≤◌, ◌<◌, ◌≡◌, ◌≢◌, ◌∙◌, refl, sym, ap, subst, arith, true,
}
use net_calc.Prelude.{
  List, [], ◌∷◌, ◌++◌, length, set, length-set, length-replicate, map, none, some, ◌==◌,
  if◌then◌else◌,
}
use net_calc.Queue.Span.{span, length-span, span-set_after}
use net_calc.Queue.Defs.{Queue, Node, queue_new, queue_enqueue}
use net_calc.Queue.Fifo

-- `q` holds the jobs `jobs`, oldest first.
pub record Holds (q : Queue) (jobs : List Node) : Type 0 where
  pub room : 0 < q.capacity
  pub slots : length q.items ≡ q.capacity
  pub size_le : q.size ≤ q.capacity
  pub front_lt : q.front < q.capacity
  pub at_start : q.size ≡ 0 → (q.front ≡ 0) × (q.rear ≡ 0)
  pub rear_last : 0 < q.size → q.rear ≡ (q.front + (q.size - 1)) % q.capacity
  pub held : span none q.capacity q.items q.front q.size ≡ map some jobs

length-map-some : (jobs : List Node) → length (map some jobs) ≡ length jobs
length-map-some [] = refl
length-map-some (x ∷ jobs) = ap suc (length-map-some jobs)

pub size-Holds : (q : Queue) (jobs : List Node) → Holds q jobs → q.size ≡ length jobs
size-Holds q jobs h =
    sym (length-span none q.capacity q.items q.front q.size)
    ∙ ap length h.held
    ∙ length-map-some jobs

-- With both allocations successful and a capacity other than 0, queue_new returns a queue of
-- that capacity that satisfies the representation invariant and holds nothing.
pub queue_new-Holds :
    (capacity : ℕ)
    → capacity ≢ 0
    → (q : Queue) × (queue_new true true capacity ≡ some q) × (q.capacity ≡ capacity) × Holds q []
unfolding queue_new
queue_new-Holds capacity h = (
  record { capacity = capacity; size = 0; front = 0; rear = 0; items = _ },
  ground arith,
  refl,
  record {
    room = omega arith;
    slots = length-replicate capacity none;
    size_le = omega arith;
    front_lt = omega arith;
    at_start = λ e. (refl, refl);
    rear_last = λ p. absurd (omega arith);
    held = refl;
  },
)

map-append_one :
    (jobs : List Node) (x : Node) → map some (jobs ++ (x ∷ [])) ≡ map some jobs ++ (some x ∷ [])
map-append_one [] x = refl
map-append_one (y ∷ jobs) x = ap (λ l. some y ∷ l) (map-append_one jobs x)

-- The record after an accepted `queue_enqueue`.
abbrev stored : Queue → Node → ℕ → Queue
stored q node rear = record q {
  size = q.size + 1;
  rear = rear;
  items = set q.items rear (some node);
}

stored-Holds :
    (q : Queue) (jobs : List Node) (node : Node) (rear : ℕ)
    → Holds q jobs
    → q.size < q.capacity
    → rear ≡ (q.front + q.size) % q.capacity
    → Holds (stored q node rear) (jobs ++ (node ∷ []))
stored-Holds q jobs node rear h p e = record {
  room = h.room;
  slots = length-set q.items rear (some node) ∙ h.slots;
  size_le = omega arith;
  front_lt = h.front_lt;
  at_start = λ z. absurd (omega arith);
  rear_last = λ z. e ∙ ap (λ n. (q.front + n) % q.capacity) (omega arith);
  held =
      ap (span none q.capacity (set q.items rear (some node)) q.front) (add-one q.size)
      ∙ subst
          (λ r.
            span none q.capacity (set q.items r (some node)) q.front (suc q.size)
            ≡ span none q.capacity q.items q.front q.size ++ (some node ∷ []))
          (sym e)
          (span-set_after none q.capacity q.items (some node) q.size q.front h.slots h.front_lt p)
      ∙ ap (λ l. l ++ (some node ∷ [])) h.held
      ∙ sym (map-append_one jobs node);
}

-- The slot that `queue_enqueue` writes is the one after the last.
next_rear :
    (q : Queue) (jobs : List Node)
    → Holds q jobs
    → 0 < q.size
    → (q.rear + 1) % q.capacity ≡ (q.front + q.size) % q.capacity
next_rear q jobs h p =
    ap (λ r. (r + 1) % q.capacity) (h.rear_last p)
    ∙ mod-add-mod (q.front + (q.size - 1)) q.capacity 1
    ∙ ap (λ r. r % q.capacity) (omega arith)

first_rear :
    (q : Queue) (jobs : List Node)
    → Holds q jobs
    → q.size ≡ 0
    → q.rear ≡ (q.front + q.size) % q.capacity
first_rear q jobs h z = omega (
  arith,
  h.at_start z,
  mod-eq_of_lt {n = q.front + q.size} {m = q.capacity} (omega (arith, h.at_start z, h.front_lt)),
)

-- The status of `queue_enqueue`: 0 only where a job joins others.
abbrev pub enqueue_status : ℕ → List Node → Node → ℕ
enqueue_status capacity jobs node =
    if length jobs == capacity
    then 1
    else if node.arg == 0
    then 1
    else if length jobs == 0
    then 1
    else 0

push_full :
    (c : ℕ) (jobs : List Node) (node : Node) → length jobs ≡ c → jobs ≡ Fifo.push c jobs node
unfolding Fifo.push
push_full c jobs node e = ground arith

push_null : (c : ℕ) (jobs : List Node) (node : Node) → node.arg ≡ 0 → jobs ≡ Fifo.push c jobs node
unfolding Fifo.push
push_null c jobs node e = ground arith

push_room :
    (c : ℕ) (jobs : List Node) (node : Node)
    → length jobs ≢ c
    → node.arg ≢ 0
    → jobs ++ (node ∷ []) ≡ Fifo.push c jobs node
unfolding Fifo.push
push_room c jobs node e n = ground arith

-- On a queue that satisfies its representation invariant and holds a list of jobs, queue_enqueue
-- with a successful allocation leaves a queue of the same capacity that satisfies the invariant
-- and holds the jobs of the bounded list queue: the node is added behind the others unless the
-- queue is full or its argument is NULL. The status is 0 only if the node joins at least one
-- other, and 1 otherwise, also where the node is taken into an empty queue.
pub queue_enqueue_refines :
    (q : Queue) (jobs : List Node) (node : Node)
    → Holds q jobs
    → (q' : Queue) × (queue_enqueue true (some q) node.task node.del_f node.arg
        ≡ (enqueue_status q.capacity jobs node, some q'))
      × (q'.capacity ≡ q.capacity)
      × Holds q' (Fifo.push q.capacity jobs node)
unfolding queue_enqueue
queue_enqueue_refines q jobs node h = elim (ℕ_discrete q.size q.capacity) [
  | yes full ↦ (
    q,
    ground (arith, size-Holds q jobs h),
    refl,
    subst (Holds q) (push_full q.capacity jobs node (omega (arith, size-Holds q jobs h))) h,
  )
  | no free ↦ elim (ℕ_discrete node.arg 0) [
    | yes null ↦ (
      q,
      ground (arith, size-Holds q jobs h),
      refl,
      subst (Holds q) (push_null q.capacity jobs node null) h,
    )
    | no job ↦ elim (ℕ_discrete q.size 0) [
      | yes empty ↦ (
        stored q node q.rear,
        ground (arith, size-Holds q jobs h),
        refl,
        subst (Holds (stored q node q.rear))
            (push_room q.capacity jobs node (omega (arith, size-Holds q jobs h)) job)
            (stored-Holds q jobs node q.rear h (omega (arith, h.size_le))
              (first_rear q jobs h empty)),
      )
      | no more ↦ (
        stored q node ((q.rear + 1) % q.capacity),
        ground (arith, size-Holds q jobs h),
        refl,
        subst (Holds (stored q node ((q.rear + 1) % q.capacity)))
            (push_room q.capacity jobs node (omega (arith, size-Holds q jobs h)) job)
            (stored-Holds q jobs node ((q.rear + 1) % q.capacity) h (omega (arith, h.size_le))
              (next_rear q jobs h (omega arith))),
      )
    ]
  ]
]
