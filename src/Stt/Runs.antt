-- ===== src/Stt/Runs.antt =====
-- Tests of internal/sttjob/manager.go: provider 3 behind a gate.
use audio_server.Common.{none, inr, arith, ◌≡◌, refl, true, some, List, [], ◌∷◌, sum_by}
use audio_server.Stt.Jobs.{
  Manager, opens, Answer, new_manager, new_job, get, Event, submits, moves, run,
}
use audio_server.Stt.Gates.{holds, run-held}
use audio_server.Stt.Final.{outcome, ended, get-ended}

abbrev heard : Answer
heard = record { gate = opens; result = 9; error = none }

-- Two jobs, of which the first has passed the gate.
abbrev two_jobs : List Event
two_jobs = submits true 3 0 ∷ submits true 3 0 ∷ moves 0 heard ∷ moves 1 heard ∷ moves 0 heard ∷ []

one_held : (run two_jobs (new_manager (3 ∷ []) true)).held ≡ 1
unfolding run new_manager
one_held = refl

run-held_example :
    (run two_jobs (new_manager (3 ∷ []) true)).held
    ≡ sum_by holds (run two_jobs (new_manager (3 ∷ []) true)).jobs
run-held_example = run-held (3 ∷ []) true two_jobs

abbrev one_job : Manager
one_job = record { providers = 3 ∷ []; has_gate = true; jobs = new_job 3 0 ∷ []; held = 0 }

-- The goroutine's four steps, with a job that is submitted and begins between them.
abbrev four_moves : List Event
four_moves =
    moves 0 heard
    ∷ submits true 3 0
    ∷ moves 0 heard
    ∷ moves 1 heard
    ∷ moves 0 heard
    ∷ moves 0 heard
    ∷ []

get-ended_example : get 0 (run four_moves one_job) ≡ some (ended (outcome true heard) (new_job 3 0))
unfolding get
get-ended_example =
    get-ended 0 heard four_moves one_job (new_job 3 0) refl refl
      (inr refl, (inr refl, (inr refl, (inr refl, (inr refl, tt))))) (omega arith)
