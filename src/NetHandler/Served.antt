-- ===== src/NetHandler/Served.antt =====
-- Which connections the jobs of the listener serve.
use net_calc.Prelude.{
  Option, none, some, Bool-cases, inl, inr, ℕ, subst, get_elem?, length, zero, suc, ◌+◌, ◌<◌, ◌≤◌,
  ◌≡◌, ◌∙◌, refl, sym, ap, arith, Bool, true, false, some, List, [], ◌∷◌, ◌++◌, map, append-nil,
}
use net_calc.Prelude.Int.{ℤ, pos}
use net_calc.Words.{Status, success}
use net_calc.NetHandler.Listener.{
  Setup, start_listener, new_listener, Listener, narrow, accept_connection, read_args,
  stop_listening, Listens, listening, accepts, accept_fails, begins, stops,
}

-- A connection comes when no job is about to read, its descriptor fits, and its job is queued.
abbrev pub Calm : Listener → ℕ → Bool → Type 0
Calm l con_socket queued = (l.pending ≡ 0) × (con_socket < 128) × (queued ≡ true)

-- The connection whose job has not read its descriptor.
abbrev pub left : ℕ → ℤ → List ℤ
left zero socket = []
left (suc k) socket = socket ∷ []

pub record InTurn (l : Listener) : Type 0 where
  pub one_job : l.pending ≤ 1
  pub in_order : map pos l.accepted ≡ l.served ++ left l.pending l.socket

abbrev AtStart : Status × Option Listener → Type 0
AtStart (err, none) = Unit {0}
AtStart (err, some l) = new_listener ≡ l

start_listener-AtStart : (setup : Setup) → AtStart (start_listener setup)
unfolding start_listener
start_listener-AtStart setup = elim (Bool-cases setup.resolved) [
  | inr fails ↦ rw fails tt
  | inl resolved ↦ elim (Bool-cases setup.allocated) [
    | inr fails ↦ rw (resolved, fails) tt
    | inl allocated ↦ elim (Bool-cases setup.bound) [
      | inr fails ↦ rw (resolved, allocated, fails) tt
      | inl bound ↦ elim (Bool-cases setup.listens) [
        | inr fails ↦ rw (resolved, allocated, bound, fails) tt
        | inl listens ↦ rw (resolved, allocated, bound, listens) refl
      ]
    ]
  ]
]

pub new_at_start :
    (setup : Setup) (l : Listener) → start_listener setup ≡ (success, some l) → new_listener ≡ l
new_at_start setup l e = subst AtStart e (start_listener-AtStart setup)

narrow-pos : (n : ℕ) → n < 128 → narrow n ≡ pos n
narrow-pos n h = ground arith

map-append : (ns : List ℕ) (n : ℕ) → map pos (ns ++ (n ∷ [])) ≡ map pos ns ++ (pos n ∷ [])
map-append [] n = refl
map-append (m ∷ ns) n = ap (λ l. pos m ∷ l) (map-append ns n)

-- A read of the freed structure stays on record.
read_args-misread :
    (freed : Bool) (others : ℕ) (l : Listener)
    → (read_args freed others l).misread ≡ false
    → (freed ≡ false) × (l.misread ≡ false)
unfolding read_args
read_args-misread true others l e = cc
read_args-misread false others l e = (refl, e)

pub read_args-accepted :
    (freed : Bool) (others : ℕ) (l : Listener) → (read_args freed others l).accepted ≡ l.accepted
unfolding read_args
read_args-accepted true others l = refl
read_args-accepted false others l = refl

accept-InTurn :
    (l : Listener) (con_socket : ℕ)
    → l.pending ≡ 0
    → con_socket < 128
    → InTurn l
    → InTurn (accept_connection (some con_socket) true l)
unfolding accept_connection
accept-InTurn l con_socket idle h inv = record {
  one_job = omega arith;
  in_order =
      map-append l.accepted con_socket
      ∙ ap (λ s. s ++ (pos con_socket ∷ []))
          (inv.in_order ∙ ap (λ k. l.served ++ left k l.socket) idle ∙ append-nil l.served)
      ∙ ap (λ s. l.served ++ s) (one_left (l.pending + 1) (omega arith));
}
  where
    one_left : (k : ℕ) → k ≡ 1 → pos con_socket ∷ [] ≡ left k (narrow con_socket)
    one_left k e = rw (e, narrow-pos con_socket h) refl

begin-InTurn :
    (l : Listener) (others : ℕ)
    → l.pending ≡ suc others
    → InTurn l
    → InTurn (read_args false others l)
unfolding read_args
begin-InTurn l others due inv =
    let none_left : others ≡ 0 = omega (arith, due, inv.one_job) in
    record {
      one_job = omega (arith, none_left);
      in_order =
          inv.in_order
          ∙ ap (λ k. l.served ++ left k l.socket) due
          ∙ sym (append-nil (l.served ++ (l.socket ∷ [])))
          ∙ ap (λ k. (l.served ++ (l.socket ∷ [])) ++ left k l.socket) (sym none_left);
    }

-- If each connection comes when no job of an earlier one has its descriptor still to read, with
-- a descriptor below 128, and its job is queued, then in every state of the listener the
-- descriptors of the accepted connections are, in order, those that jobs have read and then the
-- one that a job is about to read, of which there is at most one, as long as no job has read the
-- structure after its release. (All jobs get a pointer to one
-- structure, so that without the condition they may serve the wrong connection.)
pub Listens-InTurn : (l : Listener) → Listens Calm l → l.misread ≡ false → InTurn l
unfolding accept_connection stop_listening
Listens-InTurn _ (listening setup l e) in_time =
    subst InTurn (new_at_start setup l e) (record { one_job = omega arith; in_order = refl })
Listens-InTurn _ (accepts l con_socket queued r running (idle, h, taken)) in_time =
    subst (λ b. InTurn (accept_connection (some con_socket) b l)) (sym taken)
      (accept-InTurn l con_socket idle h (Listens-InTurn l r in_time))
Listens-InTurn _ (accept_fails l queued r running) in_time = Listens-InTurn l r in_time
Listens-InTurn _ (begins l others r due) in_time =
    let (live, before) = read_args-misread l.freed others l in_time in
    subst (λ b. InTurn (read_args b others l)) (sym live)
      (begin-InTurn l others due (Listens-InTurn l r before))
Listens-InTurn _ (stops l r running) in_time =
    let inv = Listens-InTurn l r in_time in
    record { one_job = inv.one_job; in_order = inv.in_order }

-- A value that a descriptor of an accepted connection has as an int8_t.
abbrev pub Known : List ℕ → ℤ → Type 0
Known accepted s =
    (i : ℕ) × (con_socket : ℕ) × (get_elem? accepted i ≡ some con_socket) × (narrow con_socket ≡ s)

abbrev pub AllKnown : List ℕ → List ℤ → Type 0
AllKnown accepted [] = Unit {0}
AllKnown accepted (s ∷ served) = Known accepted s × AllKnown accepted served

get_elem?-append :
    (ns ms : List ℕ) (i n : ℕ) → get_elem? ns i ≡ some n → get_elem? (ns ++ ms) i ≡ some n
get_elem?-append [] ms i n e = cc
get_elem?-append (m ∷ ns) ms zero n e = e
get_elem?-append (m ∷ ns) ms (suc i) n e = get_elem?-append ns ms i n e

get_elem?-last : (ns : List ℕ) (n : ℕ) → get_elem? (ns ++ (n ∷ [])) (length ns) ≡ some n
get_elem?-last [] n = refl
get_elem?-last (m ∷ ns) n = get_elem?-last ns n

Known-append : (accepted more : List ℕ) (s : ℤ) → Known accepted s → Known (accepted ++ more) s
Known-append accepted more s (i, n, e, same) = (i, n, get_elem?-append accepted more i n e, same)

AllKnown-append :
    (accepted more : List ℕ) (served : List ℤ)
    → AllKnown accepted served
    → AllKnown (accepted ++ more) served
AllKnown-append accepted more [] known = tt
AllKnown-append accepted more (s ∷ served) (k, known) =
    (Known-append accepted more s k, AllKnown-append accepted more served known)

AllKnown-snoc :
    (accepted : List ℕ) (served : List ℤ) (s : ℤ)
    → AllKnown accepted served
    → Known accepted s
    → AllKnown accepted (served ++ (s ∷ []))
AllKnown-snoc accepted [] s known k = (k, tt)
AllKnown-snoc accepted (t ∷ served) s (h, known) k = (h, AllKnown-snoc accepted served s known k)

pub record ServesKnown (l : Listener) : Type 0 where
  pub all_known : AllKnown l.accepted l.served
  pub next_known : 0 < l.pending → l.freed ≡ false → Known l.accepted l.socket

begin-ServesKnown :
    (l : Listener) (others : ℕ)
    → l.freed ≡ false
    → l.pending ≡ suc others
    → ServesKnown l
    → ServesKnown (read_args false others l)
unfolding read_args
begin-ServesKnown l others live due inv =
    let known = inv.next_known (omega (arith, due)) live in
    record {
      all_known = AllKnown-snoc l.accepted l.served l.socket inv.all_known known;
      next_known = λ p still. known;
    }

-- In every state of the listener, however connections, failures of accept, jobs and the signal
-- follow each other, if no job has read the structure of the descriptor after the listener has
-- freed it, every descriptor that a job has read, and, while the listener has not freed it, the
-- one that a due job would read, is that of an accepted connection, cut to an int8_t.
pub Listens-ServesKnown :
    (Ready : Listener → ℕ → Bool → Type 0) (l : Listener)
    → Listens Ready l
    → l.misread ≡ false
    → ServesKnown l
unfolding accept_connection stop_listening
Listens-ServesKnown Ready _ (listening setup l e) in_time =
    subst ServesKnown (new_at_start setup l e)
      (record { all_known = tt; next_known = λ p still. absurd (omega arith) })
Listens-ServesKnown Ready _ (accepts l con_socket queued r running ready) in_time = record {
  all_known =
      AllKnown-append l.accepted (con_socket ∷ []) l.served
        (Listens-ServesKnown Ready l r in_time).all_known;
  next_known =
      λ p still. (length l.accepted, con_socket, get_elem?-last l.accepted con_socket, refl);
}
Listens-ServesKnown Ready _ (accept_fails l queued r running) in_time =
    Listens-ServesKnown Ready l r in_time
Listens-ServesKnown Ready _ (begins l others r due) in_time =
    let (live, before) = read_args-misread l.freed others l in_time in
    subst (λ b. ServesKnown (read_args b others l)) (sym live)
      (begin-ServesKnown l others live due (Listens-ServesKnown Ready l r before))
Listens-ServesKnown Ready _ (stops l r running) in_time = record {
  all_known = (Listens-ServesKnown Ready l r in_time).all_known;
  next_known = λ p still. absurd cc;
}
