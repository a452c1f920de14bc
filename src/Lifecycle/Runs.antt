-- ===== src/Lifecycle/Runs.antt =====
-- Tests of internal/lifecycle/lifecycle.go: two models of 6 MiB under a budget of 10.
use audio_server.Common.{
  ◌&&◌, not, if◌then◌else◌, is_some, ℕ, zero, suc, ◌+◌, ◌≡◌, ◌≢◌, ◌≤◌, refl, true, false, some,
  arith, List, [], ◌∷◌, length,
}
use audio_server.Lifecycle.Types.{
  Name, Instance, Manager, insufficient_room, new_instance, new_manager, lookup, configured,
}
use audio_server.Lifecycle.Room.{make_room, estimate, evict_oldest_idle}
use audio_server.Lifecycle.Start.{Attempt, healthy, unhealthy, stuck, Env, start_loop, start}
use audio_server.Lifecycle.Calls.{Event, acquires, releases, starts, ticks, stops_all, run}
use audio_server.Lifecycle.Spare.{Spares, make_room-Spares}
use audio_server.Lifecycle.Oldest.{Evicted, evict_oldest_idle-Evicted}
use audio_server.Lifecycle.Retry.{start_loop-ends_always}
use audio_server.Lifecycle.Budget.{make_room-fits}
use audio_server.Lifecycle.Ensures.{total-start, start-IsRunning, start-Held}
use audio_server.Lifecycle.Moves.{total, Held, IsRunning}
use audio_server.Lifecycle.Guard.{IsGuarded, run-configured-IsGuarded}

abbrev resident : Name → ℕ → Instance
resident n last = record (new_instance n 5 6) { running = true; last_used = last }

abbrev two_residents : List Instance
two_residents = resident 1 7 ∷ resident 2 3 ∷ []

-- The first launch fails for want of memory, the second succeeds.
abbrev second_try : ℕ → Attempt
second_try zero = unhealthy true
second_try _ = healthy

abbrev well : ℕ → Env
well now = record { now = now; meter = []; attempts = λ k. healthy }

abbrev tight : ℕ → Env
tight now = record { now = now; meter = []; attempts = second_try }

abbrev session : List Event
session =
    acquires 1 (well 1)
    ∷ starts 2 false (well 2)
    ∷ releases 3
    ∷ acquires 2 (tight 4)
    ∷ ticks 0 20
    ∷ stops_all
    ∷ []

abbrev models : List (Name × ℕ × ℕ)
models = (1, 5, 6) ∷ (2, 5, 6) ∷ []

-- A request is in flight on model 1, so there is no room for model 2, and model 1 stays.
abbrev in_use : List Instance
in_use = record (resident 1 7) { active = 1 } ∷ new_instance 2 5 6 ∷ []

no_room : make_room 10 false 2 6 [] in_use ≡ (in_use, [], some insufficient_room)
unfolding make_room
no_room = refl

run-configured-IsGuarded_example :
    IsGuarded
      (run session (configured 10 false models)).exec_holder
      (run session (configured 10 false models)).instances
run-configured-IsGuarded_example = run-configured-IsGuarded 10 false models session

abbrev both : Manager
both = record (configured 10 false models) { instances = in_use }

total-start_example :
    total (start 1 false true (well 8) both).0
    ≡ total both.instances
      + (if true && not (is_some (start 1 false true (well 8) both).1) then 1 else 0)
total-start_example = total-start both 1 false true (well 8)

start-IsRunning_example : IsRunning (lookup 1 (start 1 false true (well 8) both).0)
unfolding start lookup configured new_manager
start-IsRunning_example = start-IsRunning both 1 false true (well 8) refl

-- The exclusive start of model 2 leaves model 1.
start-Held_example : Held (lookup 1 (start 2 true false (well 8) both).0)
unfolding lookup configured new_manager
start-Held_example = start-Held both 2 true false (well 8) 1 (omega arith) (refl, refl)

make_room-fits_example : estimate 3 (make_room 13 false 3 6 [] two_residents).0 + 6 ≤ 13
unfolding make_room
make_room-fits_example = make_room-fits 13 3 6 [] two_residents (omega arith) (omega arith) refl

make_room-Spares_example : Spares two_residents (make_room 13 false 3 6 [] two_residents).0
make_room-Spares_example = make_room-Spares 13 false 3 6 [] two_residents

evict_oldest_idle-Evicted_example : Evicted 3 two_residents (evict_oldest_idle 3 two_residents)
evict_oldest_idle-Evicted_example = evict_oldest_idle-Evicted 3 two_residents

start_loop-ends_always_example :
    (start_loop (suc (length two_residents)) 3 9 second_try 0 two_residents).1 ≢ stuck
start_loop-ends_always_example = start_loop-ends_always 3 9 second_try two_residents
