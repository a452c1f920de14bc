-- ===== src/Stt/Gates.antt =====
-- Every release function that a job of internal/sttjob/manager.go was given is called.
use audio_server.Common.{
  ℕ, ◌+◌, ◌≡◌, ◌≤◌, refl, Bool, true, Option, none, some, arith, List, [], ◌∷◌, get_elem?, sum_by,
  sum_by-append, sum_by-set, sum_by-ge,
}
use audio_server.Stt.Jobs.{
  Phase, transcribing, leaving, Job, Manager, Answer, new_manager, new_job, submit, advance,
  advance_held, Event, submits, moves, move, step, run,
}

abbrev pub held_by : Phase → ℕ
held_by (transcribing true) = 1
held_by (leaving true) = 1
held_by _ = 0

-- Whether a job's goroutine has a release function to call.
abbrev pub holds : Job → ℕ
holds job = held_by job.phase

advance-held :
    (has_gate : Bool) (a : Answer) (p : Phase) (job : Job) (held : ℕ)
    → job.phase ≡ p
    → held_by p ≤ held
    → advance_held has_gate a p held + held_by p ≡ held + held_by (advance has_gate a p job).phase
unfolding advance advance_held
advance-held has_gate a p job held e h = ground (arith, e, h)

move-held :
    (id : ℕ) (a : Answer) (o : Option Job) (m : Manager)
    → get_elem? m.jobs id ≡ o
    → m.held ≡ sum_by holds m.jobs
    → (move id a o m).held ≡ sum_by holds (move id a o m).jobs
unfolding move
move-held id a none m e h = h
move-held id a (some job) m e h =
    let there = sum_by-ge holds m.jobs id e in
    omega (
      arith,
      h,
      there,
      advance-held m.has_gate a job.phase job m.held refl (omega (arith, h, there)),
      sum_by-set holds m.jobs id (advance m.has_gate a job.phase job) e,
    )

step-held :
    (e : Event) (m : Manager)
    → m.held ≡ sum_by holds m.jobs
    → (step e m).held ≡ sum_by holds (step e m).jobs
unfolding step submit
step-held (submits made p s) m h = ground (arith, h, sum_by-append holds m.jobs (new_job p s ∷ []))
step-held (moves id a) m h = move-held id a (get_elem? m.jobs id) m refl h

run-held_by :
    (es : List Event) (m : Manager)
    → m.held ≡ sum_by holds m.jobs
    → (run es m).held ≡ sum_by holds (run es m).jobs
unfolding run
run-held_by [] m h = h
run-held_by (e ∷ es) m h = run-held_by es (step e m) (step-held e m h)

-- After any events, the release functions that the gate gave and that were not called are as many
-- as the goroutines that are between the gate and their release, having been given one.
pub run-held :
    (providers : List ℕ) (has_gate : Bool) (es : List Event)
    → (run es (new_manager providers has_gate)).held
      ≡ sum_by holds (run es (new_manager providers has_gate)).jobs
unfolding new_manager
run-held providers has_gate es = run-held_by es (new_manager providers has_gate) refl
