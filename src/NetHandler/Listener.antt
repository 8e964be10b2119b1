-- ===== src/NetHandler/Listener.antt =====
-- The loop of `start_listener` with `accept_connection` of 5_NetCalc/src/net_handler.c, and the
-- jobs that it gives to the thread pool. What the calls of the socket library return,
-- and whether the queue of the pool takes the job, is an argument.
use net_calc.Prelude.{
  ℕ, suc, ◌+◌, ◌%◌, ◌≡◌, Bool, not, true, false, Option, none, some, List, [], ◌∷◌, ◌++◌,
  if◌then◌else◌,
}
use net_calc.Prelude.Int.{ℤ, pos}
use net_calc.Words.{Status, success, error, num}

-- There is one structure for the arguments of all jobs: `socket` is its only field, an int8_t.
-- `pending` counts the jobs that have not read it, `accepted` has the descriptors of the accepted
-- connections, and `served` those that jobs have read. `misread` says that a job has read the
-- structure after its release, which is undefined behaviour.
pub record Listener : Type 0 where
  pub socket : ℤ
  pub freed : Bool
  pub pending : ℕ
  pub accepted : List ℕ
  pub served : List ℤ
  pub misread : Bool

-- What `calloc` gives.
abbrev pub new_listener : Listener
new_listener = record {
  socket = pos 0;
  freed = false;
  pending = 0;
  accepted = [];
  served = [];
  misread = false;
}

-- Whether the calls in front of the loop succeed. Failures of `socket` and of the socket's options
-- are only printed.
pub record Setup : Type 0 where
  pub resolved : Bool
  pub allocated : Bool
  pub bound : Bool
  pub listens : Bool

-- The status of `start_listener`, and the state in which its loop begins. Behind a failed
-- allocation `err` is that of `getaddrinfo`.
unfoldable pub start_listener : Setup → Status × Option Listener
start_listener setup =
    if not setup.resolved
    then (error, none)
    else if not setup.allocated
    then (success, none)
    else if not setup.bound
    then (error, none)
    else if not setup.listens
    then (error, none)
    else (success, some new_listener)

-- A descriptor as an int8_t.
abbrev pub narrow : ℕ → ℤ
narrow con_socket = num 7 (con_socket % 256)

-- Without a descriptor `accept` has failed.
unfoldable pub accept_connection : Option ℕ → Bool → Listener → Listener
accept_connection none queued l = l
accept_connection (some con_socket) queued l = record l {
  socket = narrow con_socket;
  pending = if queued then l.pending + 1 else l.pending;
  accepted = l.accepted ++ (con_socket ∷ []);
}

-- The read of the descriptor, by whether the structure is freed.
unfoldable pub read_args : Bool → ℕ → Listener → Listener
read_args true others l = record l { pending = others; misread = true }
read_args false others l = record l { pending = others; served = l.served ++ (l.socket ∷ []) }

-- `handle_new_connection` begins with reading the descriptor. The listener frees the structure when it
-- ends, and nothing keeps a due job from beginning after that.
abbrev pub begin_connection : ℕ → Listener → Listener
begin_connection others l = read_args l.freed others l

-- The loop ends behind a signal.
unfoldable pub stop_listening : Listener → Listener
stop_listening l = record l { freed = true }

-- `Ready` says when a connection comes, with which descriptor, and whether its job is queued.
pub data Listens (Ready : Listener → ℕ → Bool → Type 0) : Listener → Type 0 where
  listening :
      (setup : Setup) (l : Listener) → start_listener setup ≡ (success, some l) → Listens Ready l
  accepts :
      (l : Listener) (con_socket : ℕ) (queued : Bool)
      → Listens Ready l
      → l.freed ≡ false
      → Ready l con_socket queued
      → Listens Ready (accept_connection (some con_socket) queued l)
  accept_fails :
      (l : Listener) (queued : Bool)
      → Listens Ready l
      → l.freed ≡ false
      → Listens Ready (accept_connection none queued l)
  begins :
      (l : Listener) (others : ℕ)
      → Listens Ready l
      → l.pending ≡ suc others
      → Listens Ready (begin_connection others l)
  stops : (l : Listener) → Listens Ready l → l.freed ≡ false → Listens Ready (stop_listening l)
