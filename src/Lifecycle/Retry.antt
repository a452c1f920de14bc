-- ===== src/Lifecycle/Retry.antt =====
-- The launch loop of start in internal/lifecycle/lifecycle.go ends: each retry has stopped a model.
use audio_server.Common.{
  ℕ, zero, suc, ◌≤◌, ◌<◌, ◌≡◌, ◌≢◌, inl, inr, refl, if◌then◌else◌, true, arith, List, [], ◌∷◌,
  sum_by, sum_by-set, length,
}
use audio_server.Lifecycle.Types.{Name, Instance, stop, modify}
use audio_server.Lifecycle.Room.{evict_oldest_idle}
use audio_server.Lifecycle.Start.{
  Attempt, healthy, not_executed, unhealthy, stuck, try_start, start_loop,
}
use audio_server.Lifecycle.Oldest.{is_candidate, evict_oldest_idle-Evicted}

abbrev weight : Name → Instance → ℕ
weight n i = if is_candidate n i then 1 else 0

-- The instances that may still be evicted for `n`.
abbrev candidates : Name → List Instance → ℕ
candidates n = sum_by (weight n)

candidates-le-length : (n : Name) (is : List Instance) → candidates n is ≤ length is
candidates-le-length n [] = omega arith
candidates-le-length n (i ∷ is) = ground (arith, candidates-le-length n is)

pub name-try_start : (now : ℕ) (a : Attempt) (i : Instance) → (try_start now a i).name ≡ i.name
unfolding try_start
name-try_start now healthy i = refl
name-try_start now not_executed i = refl
name-try_start now (unhealthy oom) i = refl

candidates-modify :
    (n : Name) (now : ℕ) (a : Attempt) (is : List Instance)
    → candidates n (modify n (try_start now a) is) ≡ candidates n is
unfolding modify
candidates-modify n now a [] = refl
candidates-modify n now a (i ∷ is) =
    ground (arith, candidates-modify n now a is, name-try_start now a i)

candidates-evict :
    (n : Name) (is : List Instance)
    → (evict_oldest_idle n is).1 ≡ true
    → candidates n (evict_oldest_idle n is).0 < candidates n is
candidates-evict n is h = elim (evict_oldest_idle-Evicted n is) [
  | inl (at, i, o, t) ↦
      rw o.stopped (ground (arith, sum_by-set (weight n) is at (stop i) o.here, o.candidate))
  | inr (c, s, f) ↦ cc
]

-- With more fuel than models to evict the loop of start ends by a launch or an error.
start_loop-ends :
    (fuel : ℕ) (n : Name) (now : ℕ) (attempts : ℕ → Attempt) (k : ℕ) (is : List Instance)
    → candidates n is < fuel
    → (start_loop fuel n now attempts k is).1 ≢ stuck
unfolding start_loop
start_loop-ends zero n now attempts k is h = absurd (omega arith)
start_loop-ends (suc fuel) n now attempts k is h = ground (
  arith,
  candidates-modify n now (attempts k) is,
  candidates-evict n (modify n (try_start now (attempts k)) is),
  start_loop-ends fuel n now attempts (suc k)
      (evict_oldest_idle n (modify n (try_start now (attempts k)) is)).0,
)

-- However the launches end, the loop of start with one round more than there are instances comes
-- to a launched model or an error: it never runs on.
pub start_loop-ends_always :
    (n : Name) (now : ℕ) (attempts : ℕ → Attempt) (is : List Instance)
    → (start_loop (suc (length is)) n now attempts 0 is).1 ≢ stuck
start_loop-ends_always n now attempts is =
    start_loop-ends (suc (length is)) n now attempts 0 is (omega (arith, candidates-le-length n is))
