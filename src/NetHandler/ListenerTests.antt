-- ===== src/NetHandler/ListenerTests.antt =====
-- Runs of the listener, and the theorems at their states.
use net_calc.Prelude.{ℕ, ◌≡◌, refl, Bool, true, some, [], ◌∷◌}
use net_calc.Prelude.Int.{pos, negsuc}
use net_calc.NetHandler.Listener.{
  Setup, start_listener, Listens, listening, Listener, new_listener, accept_connection,
  begin_connection, listening, accepts, begins, stops, narrow, read_args, stop_listening,
}
use net_calc.NetHandler.Served.{ServesKnown, Listens-ServesKnown}

abbrev one_accepted : Listener
one_accepted = accept_connection (some 4) true new_listener

abbrev all_succeed : Setup
all_succeed = record { resolved = true; allocated = true; bound = true; listens = true }

new_listener-Listens : (Ready : Listener → ℕ → Bool → Type 0) → Listens Ready new_listener
unfolding start_listener
new_listener-Listens Ready = listening all_succeed new_listener refl

abbrev Always : Listener → ℕ → Bool → Type 0
Always l con_socket queued = Unit {0}

-- Two connections come before a job begins: both jobs read the second descriptor.
abbrev two_accepted : Listener
two_accepted = accept_connection (some 5) true one_accepted

first_lost : (begin_connection 0 (begin_connection 1 two_accepted)).served ≡ pos 5 ∷ pos 5 ∷ []
unfolding accept_connection read_args
first_lost = refl

-- A connection comes, then the signal, and then the job begins: it reads what the listener has freed.
abbrev late : Listener
late = begin_connection 0 (stop_listening one_accepted)

late-Listens : Listens Always late
unfolding accept_connection stop_listening
late-Listens =
    begins (stop_listening one_accepted) 0
      (stops one_accepted (accepts new_listener 4 true (new_listener-Listens _) refl tt) refl) refl

late_read : late.misread ≡ true
unfolding accept_connection stop_listening read_args
late_read = refl

-- The descriptor 128 is read as -128.
wide_descriptor : narrow 128 ≡ negsuc 127
wide_descriptor = refl

Listens-ServesKnown_example : ServesKnown (begin_connection 1 two_accepted)
unfolding accept_connection read_args
Listens-ServesKnown_example =
    Listens-ServesKnown Always (begin_connection 1 two_accepted)
      (begins two_accepted 1
        (accepts one_accepted 5 true (accepts new_listener 4 true (new_listener-Listens _) refl tt)
          refl tt)
        refl)
      refl
