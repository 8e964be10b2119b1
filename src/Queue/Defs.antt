-- ===== src/Queue/Defs.antt =====
-- The functions of 4_ThreadCalc/src/queue.c. Pointers are numbers, 0 is NULL; a queue or a slot of
-- the array that may be NULL is an option. A function that changes the queue returns its status with
-- the new queue. Whether an allocation succeeds is an argument. The fields are ints
-- in C and natural numbers here: capacities are at most 2^30, so that the conversion to the field
-- keeps them and no sum of two indices (front + iter in queue_clear) overflows (Queue/Contract). The
-- program's is 200.
use net_calc.Prelude.{ℕ, zero, suc, ◌+◌, ◌-◌, ◌%◌, Bool, Option, none, some, List}
use net_calc.Prelude.{◌==◌, if◌then◌else◌, get_or, set, replicate}

pub record Node : Type 0 where
  pub del_f : ℕ
  pub task : ℕ
  pub arg : ℕ

pub record Queue : Type 0 where
  pub capacity : ℕ
  pub size : ℕ
  pub front : ℕ
  pub rear : ℕ
  pub items : List (Option Node)

unfoldable pub queue_new : Bool → Bool → ℕ → Option Queue
queue_new queue_allocated items_allocated capacity =
    if capacity == 0
    then none
    else if queue_allocated
    then (if items_allocated
        then some (record {
          capacity = capacity;
          size = 0;
          front = 0;
          rear = 0;
          items = replicate capacity none;
        })
        else none)
    else none

-- These two return 1 for a queue that is NULL too.
abbrev pub queue_fullcheck : Option Queue → ℕ
queue_fullcheck none = 1
queue_fullcheck (some q) = if q.capacity == q.size then 1 else 0

abbrev pub queue_emptycheck : Option Queue → ℕ
queue_emptycheck none = 1
queue_emptycheck (some q) = if q.size == 0 then 1 else 0

-- What the body does with the node it has allocated.
abbrev pub insert_node : Queue → Node → ℕ × Option Queue
insert_node q node =
    if queue_emptycheck (some q) == 0
    then (let rear = (q.rear + 1) % q.capacity in
        (
          0,
          some (record q { size = q.size + 1; rear = rear; items = set q.items rear (some node) }),
        ))
    else (1, some (record q { size = q.size + 1; items = set q.items q.rear (some node) }))

unfoldable pub queue_enqueue : Bool → Option Queue → ℕ → ℕ → ℕ → ℕ × Option Queue
queue_enqueue allocated none task del_f arg = (1, none)
queue_enqueue allocated (some q) task del_f arg =
    if queue_fullcheck (some q) == 0
    then (if arg == 0
        then (1, some q)
        else if allocated
        then insert_node q (record { del_f = del_f; task = task; arg = arg })
        else (1, some q))
    else (1, some q)

abbrev pub queue_peek : Option Queue → Option Node
queue_peek none = none
queue_peek (some q) =
    if queue_emptycheck (some q) == 0
    then (if q.front == q.rear then get_or q.items q.front none else get_or q.items q.front none)
    else none

abbrev pub remove_front : Queue → Queue
remove_front q = record q {
  size = q.size - 1;
  front = (q.front + 1) % q.capacity;
  items = set q.items q.front none;
}

abbrev pub reset_if_empty : Queue → Queue
reset_if_empty q = if queue_emptycheck (some q) == 0 then q else record q { front = 0; rear = 0 }

-- Returns what is written through `task`, `del_f` and `arg`, if they are written, with the queue.
-- The status is ERROR (-1) whatever happens.
unfoldable pub queue_dequeue : Option Queue → Option Node × Option Queue
queue_dequeue none = (none, none)
queue_dequeue (some q) = elim (queue_peek (some q)) [
  | none ↦ (none, some q)
  | some node ↦ (some node, some (reset_if_empty (remove_front q)))
]

-- The loop of `queue_clear` with `left` rounds to go, on the array: each frees a slot and clears it.
unfoldable pub clear_slots : ℕ → ℕ → ℕ → ℕ → List (Option Node) → List (Option Node)
clear_slots zero iter front capacity items = items
clear_slots (suc left) iter front capacity items =
    clear_slots left (iter + 1) front capacity (set items ((front + iter) % capacity) none)

unfoldable pub queue_clear : Option Queue → ℕ × Option Queue
queue_clear none = (1, none)
queue_clear (some q) =
    if queue_emptycheck (some q) == 0
    then (
      0,
      some (record q {
        size = 0;
        front = 0;
        rear = 0;
        items = clear_slots q.size 0 q.front q.capacity q.items;
      }),
    )
    else (1, some q)

-- Clears the queue, frees it and sets the caller's pointer to NULL.
unfoldable pub queue_destroy : Option Queue → Option Queue
queue_destroy none = none
queue_destroy (some q) = let (err, cleared) = queue_clear (some q) in none
