-- ===== src/Lifecycle/Holding.antt =====
-- The launch loop of internal/lifecycle/lifecycle.go leaves the requests alone.
use audio_server.Common.{
  ℕ, zero, suc, ◌≡◌, ◌≢◌, inl, inr, refl, not, true, Option, none, some, List, Bool-cases, if_both,
}
use audio_server.Lifecycle.Types.{Name, Instance, lookup, modify}
use audio_server.Lifecycle.Room.{evict_oldest_idle}
use audio_server.Lifecycle.Start.{
  Attempt, healthy, not_executed, unhealthy, Launch, launched, gave_up, is_oom, is_healthy,
  try_start, start_loop,
}
use audio_server.Lifecycle.Spare.{evict_oldest_idle-Spares}
use audio_server.Lifecycle.Retry.{name-try_start}
use audio_server.Lifecycle.Moves.{
  change, IsRunning, Moves, Moves-refl, Moves-trans, Spares-Moves, modify-Moves, lookup-modify_self,
}

active-try_start : (now : ℕ) (a : Attempt) (i : Instance) → (try_start now a i).active ≡ i.active
unfolding try_start
active-try_start now healthy i = refl
active-try_start now not_executed i = refl
active-try_start now (unhealthy oom) i = refl

healthy-IsRunning :
    (now : ℕ) (a : Attempt) (o : Option Instance)
    → is_healthy a ≡ true
    → o ≢ none
    → IsRunning (change (try_start now a) o)
unfolding try_start
healthy-IsRunning now healthy none e h = absurd (h refl)
healthy-IsRunning now healthy (some i) e h = refl
healthy-IsRunning now not_executed o e h = cc
healthy-IsRunning now (unhealthy oom) o e h = cc

-- What the launch loop ensures.
pub record LoopOk (n : Name) (is : List Instance) (r : List Instance × Launch) : Type 0 where
  pub moves : Moves n is r.0
  pub runs : lookup n is ≢ none → r.1 ≡ launched → IsRunning (lookup n r.0)

pub start_loop-LoopOk :
    (fuel : ℕ) (n : Name) (now : ℕ) (attempts : ℕ → Attempt) (k : ℕ) (is : List Instance)
    → LoopOk n is (start_loop fuel n now attempts k is)
unfolding start_loop
start_loop-LoopOk zero n now attempts k is = record { moves = Moves-refl n is; runs = λ h e. cc }
start_loop-LoopOk (suc fuel) n now attempts k is =
    let is' = modify n (try_start now (attempts k)) is in
    let tried : Moves n is is' =
      modify-Moves n (try_start now (attempts k)) is (name-try_start now (attempts k))
        (active-try_start now (attempts k)) in
    let is'' = (evict_oldest_idle n is').0 in
    let again : Moves n is is'' =
      Moves-trans n is is' is'' tried (Spares-Moves n is' is'' (evict_oldest_idle-Spares n is')) in
    let rest = start_loop-LoopOk fuel n now attempts (suc k) is'' in
    let failed : LoopOk n is (is', gave_up) = record { moves = tried; runs = λ h e. cc } in
    elim (Bool-cases (is_healthy (attempts k))) [
      | inl ok ↦ rw ok (record {
        moves = tried;
        runs = λ h e.
            rw
              (lookup-modify_self n (try_start now (attempts k)) (name-try_start now (attempts k))
                is)
              (healthy-IsRunning now (attempts k) (lookup n is) ok h);
      })
      | inr bad ↦ rw bad (
          if_both (LoopOk n is) (not (is_oom (attempts k))) (is', gave_up) _ failed
            (if_both (LoopOk n is) (evict_oldest_idle n is').1 _ (is', gave_up)
              (record {
                moves = Moves-trans n is is'' _ again rest.moves;
                runs = λ h. rest.runs (again.known h);
              })
              failed))
    ]
