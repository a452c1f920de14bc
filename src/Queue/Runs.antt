-- ===== src/Queue/Runs.antt =====
-- Runs of the queue manager: tests of the model of internal/queue/queue.go, and the theorems on it
-- at concrete inputs.
use audio_server.Common.{
  ℕ, zero, suc, ◌+◌, ◌≤◌, ◌≡◌, refl, true, false, none, some, arith, List, [], ◌∷◌, ◌++◌, count,
  sum_by, get_elem?, length,
}
use audio_server.Queue.Types.{ResourceState, SpeechRequest, SpeechResult, succeeded}
use audio_server.Queue.Jobs.{submit, position}
use audio_server.Queue.Worker.{Env, returns, checking, synthesizing, advance}
use audio_server.Queue.Idle.{idling}
use audio_server.Queue.System.{
  Config, Event, run, step, submits, runs, completes, works, expires, idles, new_manager,
  empty_request,
}
use audio_server.Queue.Exclusion.{IsExclusive, holders}
use audio_server.Queue.Reach.{run-IsExclusive_new, exclusive_use}
use audio_server.Queue.Counters.{
  counts_for, has_job, locks, idles_for, active-counts_jobs, warm_idle_exclusive, one_if,
}
use audio_server.Queue.Ownership.{waits, is_served}
use audio_server.Queue.Delivery.{carriers}
use audio_server.Queue.Calls.{AllProper}
use audio_server.Queue.Placement.{job_placement, run-never_panics}
use audio_server.Queue.Privacy.{IsCleared, references-IsCleared}
use audio_server.Queue.Handoff.{IsHandoff, acquire-IsHandoff, position-submit}

-- Providers 10 (two workers) and 20 share the group 7; both are warmed up.
abbrev shared : Config
shared = record {
  providers =
      record { id = 10; provider = record { lifecycle = true }; workers = 2; idle_unload = 50 }
      ∷ record { id = 20; provider = record { lifecycle = true }; workers = 0; idle_unload = 0 }
      ∷ [];
  resource_groups = (10, 7) ∷ (20, 7) ∷ [];
  switch_delay = λ _. 5;
  job_ttl = 100;
  has_gate = false;
}

abbrev sample_result : SpeechResult
sample_result = record {
  audio = 1 ∷ 2 ∷ [];
  content_type = 3;
  provider_id = 10;
  model = 10;
  voice = 4;
  format = 5;
}

abbrev at : ℕ → Env
at now = record {
  now = now;
  gate = none;
  warm_up = none;
  synthesis = sample_result;
  synthesis_error = none;
  streaming = returns none;
}

abbrev cloned : SpeechRequest
cloned = record empty_request { speaker_reference = 9 ∷ []; speaker_reference_text = 8 }

-- Worker `i` moves `n` times.
abbrev moves : ℕ → ℕ → ℕ → List Event
moves zero i now = []
moves (suc n) i now = works i (at now) ∷ moves n i now

-- Two jobs of provider 10 are taken by its two workers, and one of provider 20 waits.
abbrev busy : List Event
busy =
    submits 10 100 cloned 1
    ∷ submits 10 101 cloned 1
    ∷ submits 20 200 empty_request 1
    ∷ (moves 4 0 2 ++ (moves 4 1 2 ++ moves 4 2 2))

busy_places :
    let s = run busy (new_manager shared) in
    (s.manager.active 10 ≡ 2) × (s.manager.active 20 ≡ 0) × (position 200 s.manager ≡ some 1)
unfolding run step advance new_manager position
busy_places = (refl, refl, refl)

-- Provider 10 finishes; after the switch delay provider 20 takes the resource.
abbrev handed : List Event
handed = busy ++ (moves 7 0 3 ++ (moves 3 1 3 ++ moves 10 2 20))

handed_over :
    let s = run handed (new_manager shared) in
    (s.manager.active 10 ≡ 0)
    × (s.manager.warm 10 ≡ false)
    × (s.manager.warm 20 ≡ true)
    × ((s.manager.heap 0).status ≡ succeeded)
    × ((s.manager.heap 2).status ≡ succeeded)
unfolding run step advance new_manager
handed_over = (refl, refl, refl, refl, refl)

-- A timer of provider 10 fires; its idle call has marked the provider cold and not yet taken the
-- lifecycle mutex when a new job warms the provider up: Idle then runs during the synthesis.
abbrev late_idle : List Event
late_idle =
    submits 10 100 empty_request 1
    ∷ (moves 11 0 2
        ++ (expires 10 false
            ∷ idles 0
            ∷ submits 10 101 empty_request 9
            ∷ (moves 9 0 10 ++ (idles 0 ∷ []))))

idle_during_synthesis :
    let s = run late_idle (new_manager shared) in
    (get_elem? s.workers 0 ≡ some (record { provider = 10; place = synthesizing 1 }))
    × (get_elem? s.idlers 0 ≡ some (record { provider = 10; place = idling }))
    × (s.manager.warm 10 ≡ true)
unfolding run step advance new_manager
idle_during_synthesis = (refl, refl, refl)

-- The goroutine of a timer enters late, after the next job has cancelled that timer and armed another
-- one: it clears the entry of the other, which expires all the same.
abbrev forgetting : List Event
forgetting =
    submits 10 100 empty_request 1
    ∷ (moves 11 0 2
        ++ (expires 10 false
            ∷ submits 10 101 empty_request 9
            ∷ (moves 11 0 10 ++ (idles 0 ∷ expires 10 true ∷ []))))

forgotten_expires :
    let s = run forgetting (new_manager shared) in
    (length s.idlers ≡ 2) × (s.manager.forgotten 10 ≡ 0) × (s.manager.warm 10 ≡ false)
unfolding run step advance new_manager
forgotten_expires = (refl, refl, refl)

run-IsExclusive_new_example : IsExclusive (run busy (new_manager shared))
run-IsExclusive_new_example = run-IsExclusive_new shared busy

exclusive_use_example : ◌≡◌ {A = ℕ} 10 10
unfolding run step advance new_manager
exclusive_use_example =
    exclusive_use shared busy 0 1 {w = record { provider = 10; place = checking 0 }}
      {x = record { provider = 10; place = checking 1 }} refl refl refl refl (omega arith) refl

active-counts_jobs_example :
    (run busy (new_manager shared)).manager.active 10
    ≡ sum_by (counts_for has_job 10) (run busy (new_manager shared)).workers
active-counts_jobs_example = active-counts_jobs shared busy 10

warm_idle_exclusive_example :
    sum_by (counts_for locks 10) (run late_idle (new_manager shared)).workers
      + sum_by (idles_for 10) (run late_idle (new_manager shared)).idlers
    ≤ 1
warm_idle_exclusive_example = warm_idle_exclusive shared late_idle 10

-- A streaming job of NewRunningJob is completed before the queued ones come.
abbrev mixed : List Event
mixed = runs 10 300 cloned 1 ∷ completes 300 sample_result 5 ∷ busy

mixed-AllProper : AllProper mixed (new_manager shared)
unfolding run step advance new_manager
mixed-AllProper = (tt, (refl, omega arith))

job_placement_example :
    let s = run mixed (new_manager shared) in
    (count 3 (s.manager.queues 20) ≡ one_if (waits 20 3 s.manager))
    × (sum_by (carriers 3 20) s.workers ≡ one_if (is_served 20 3 s.manager))
job_placement_example = job_placement shared mixed 20 3 mixed-AllProper

run-never_panics_example : (run mixed (new_manager shared)).manager.panicked ≡ false
run-never_panics_example = run-never_panics shared mixed mixed-AllProper

references-IsCleared_example : IsCleared 0 (run handed (new_manager shared)).manager
references-IsCleared_example = references-IsCleared shared handed 0

-- Completed twice, a job closes its channel twice.
completed_twice :
    (run (completes 300 sample_result 6 ∷ []) (run mixed (new_manager shared))).manager.panicked
    ≡ true
unfolding run step advance new_manager
completed_twice = refl

-- Provider 10 has finished, and provider 20 waits for the resource.
abbrev finished : List Event
finished = busy ++ (moves 7 0 3 ++ moves 3 1 3)

abbrev left_resource : ResourceState
left_resource = record {
  active_provider = 10;
  active_jobs = 0;
  idle_since = some 3;
  switch_delay = 5;
}

acquire-IsHandoff_example :
    IsHandoff 20 10
      (holders (run finished (new_manager shared)) 7)
      20
      left_resource
      (run finished (new_manager shared)).manager
unfolding run step advance new_manager
acquire-IsHandoff_example =
    acquire-IsHandoff shared finished 20 20 left_resource (omega arith) refl (omega arith)
      (omega arith)

position-submit_example :
    position 201 (submit 20 201 empty_request 3 (run busy (new_manager shared)).manager).0
    ≡ some (suc (length ((run busy (new_manager shared)).manager.queues 20)))
unfolding run step advance new_manager
position-submit_example =
    position-submit 20 201 empty_request 3 (run busy (new_manager shared)).manager refl
      (omega arith)
