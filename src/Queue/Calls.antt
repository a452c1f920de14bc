-- ===== src/Queue/Calls.antt =====
-- Every event of internal/queue/queue.go keeps the jobs in their places.
use audio_server.Common.{
  ℕ, ◌≡◌, refl, Bool, true, false, none, some, is_some, arith, List, [], ◌∷◌, inl, inr,
  Option-cases,
}
use audio_server.Queue.Types.{Name, Ptr, Bytes, Manager, SpeechRequest, SpeechResult, Error}
use audio_server.Queue.Jobs.{
  submit_with, new_running_job, complete_job, fail_job, bump_chunk, set_align_result, sweep,
}
use audio_server.Queue.System.{
  System, Event, step, submits, submits_stream, runs, completes, fails, bumps, aligns, sweeps,
  works, expires, idles, expire, with_manager,
}
use audio_server.Queue.Ownership.{is_live}
use audio_server.Queue.Exclusion.{IsExclusive}
use audio_server.Queue.Safety.{BusOk}
use audio_server.Queue.Delivery.{
  JobsOk, SameJobs, same-JobsOk, work-JobsOk, fire_idle-JobsOk, enqueue-JobsOk,
}

-- The caller's side of CompleteJob and FailJob: they end a job that NewRunningJob made and that
-- is not ended yet, or name no job.
abbrev pub is_open : Name → Manager → Bool
is_open id m = elim (m.jobs id) [ none ↦ true | some a ↦ is_some (m.heap a).stream_bus ]

abbrev pub Proper : Event → System → Type 0
Proper (completes id result now) s = is_open id s.manager ≡ true
Proper (fails id e now) s = is_open id s.manager ≡ true
Proper _ s = Unit

abbrev pub AllProper : List Event → System → Type 0
AllProper [] s = Unit
AllProper (e ∷ es) s = Proper e s × AllProper es (step e s)

submit_with-JobsOk :
    (streams : Bool) (p id : Name) (req : SpeechRequest) (now : ℕ) (s : System)
    → JobsOk s
    → JobsOk (with_manager s (submit_with streams p id req now s.manager).0)
unfolding submit_with
submit_with-JobsOk streams p id req now s v = elim (Option-cases (s.manager.providers p)) [
  | inl e ↦ rw (e, submit_with) v
  | inr (r, e) ↦ rw (e, submit_with) (enqueue-JobsOk p id req streams now s v)
]

new_running_job-SameJobs :
    (p id : Name) (req : SpeechRequest) (now : ℕ) (m : Manager)
    → SameJobs m (new_running_job p id req now m).0
unfolding new_running_job is_live
new_running_job-SameJobs p id req now m = record {
  same_queue = λ j q. ground arith;
  same_waits = λ j q. ground arith;
  same_served = λ j q. ground arith;
  buses = λ j h. ground arith;
  calm = λ h. ground arith;
}

complete_job-SameJobs :
    (id : Name) (result : SpeechResult) (now : ℕ) (m : Manager)
    → ((j : Ptr) → BusOk j m)
    → is_open id m ≡ true
    → SameJobs m (complete_job id result now m)
unfolding complete_job is_live
complete_job-SameJobs id result now m b h = record {
  same_queue = λ j q. ground arith;
  same_waits = λ j q. ground (arith, b j);
  same_served = λ j q. ground (arith, b j);
  buses = λ j. ground (arith, b j);
  calm = λ k. elim (Option-cases (m.jobs id)) [
    | inl e ↦ ground arith
    | inr (a, e) ↦ ground (arith, b a)
  ];
}

fail_job-SameJobs :
    (id : Name) (e : Error) (now : ℕ) (m : Manager)
    → ((j : Ptr) → BusOk j m)
    → is_open id m ≡ true
    → SameJobs m (fail_job id e now m)
unfolding fail_job is_live
fail_job-SameJobs id e now m b h = record {
  same_queue = λ j q. ground arith;
  same_waits = λ j q. ground (arith, b j);
  same_served = λ j q. ground (arith, b j);
  buses = λ j. ground (arith, b j);
  calm = λ k. elim (Option-cases (m.jobs id)) [
    | inl e ↦ ground arith
    | inr (a, e) ↦ ground (arith, b a)
  ];
}

-- The calls that touch a job's data only, and the expiry of a timer.
bump_chunk-SameJobs : (id : Name) (bytes : Bytes) (m : Manager) → SameJobs m (bump_chunk id bytes m)
unfolding bump_chunk is_live
bump_chunk-SameJobs id bytes m = record {
  same_queue = λ j q. ground arith;
  same_waits = λ j q. ground arith;
  same_served = λ j q. ground arith;
  buses = λ j h. ground arith;
  calm = λ h. ground arith;
}

set_align_result-SameJobs :
    (id result : Name) (m : Manager) → SameJobs m (set_align_result id result m)
unfolding set_align_result is_live
set_align_result-SameJobs id result m = record {
  same_queue = λ j q. ground arith;
  same_waits = λ j q. ground arith;
  same_served = λ j q. ground arith;
  buses = λ j h. ground arith;
  calm = λ h. ground arith;
}

sweep-SameJobs : (now : ℕ) (m : Manager) → SameJobs m (sweep now m)
unfolding sweep is_live
sweep-SameJobs now m = record {
  same_queue = λ j q. refl;
  same_waits = λ j q. refl;
  same_served = λ j q. refl;
  buses = λ j h. h;
  calm = λ h. h;
}

expire-JobsOk : (p : Name) (old : Bool) (s : System) → JobsOk s → JobsOk (expire p old s)
unfolding expire is_live
expire-JobsOk p old s v = record {
  queues = λ j q. ground (arith, v.queues j q);
  served = λ j q. ground (arith, v.served j q);
  buses = λ j. ground (arith, v.buses j);
  calm = ground (arith, v.calm);
}

pub step-JobsOk :
    (e : Event) (s : System) → Proper e s → IsExclusive s → JobsOk s → JobsOk (step e s)
unfolding step
step-JobsOk (submits p id req now) s h x v = submit_with-JobsOk false p id req now s v
step-JobsOk (submits_stream p id req now) s h x v = submit_with-JobsOk true p id req now s v
step-JobsOk (runs p id req now) s h x v =
    same-JobsOk s _ (new_running_job-SameJobs p id req now s.manager) v
step-JobsOk (completes id result now) s h x v =
    same-JobsOk s _ (complete_job-SameJobs id result now s.manager v.buses h) v
step-JobsOk (fails id e now) s h x v =
    same-JobsOk s _ (fail_job-SameJobs id e now s.manager v.buses h) v
step-JobsOk (bumps id bytes) s h x v = same-JobsOk s _ (bump_chunk-SameJobs id bytes s.manager) v
step-JobsOk (aligns id result) s h x v =
    same-JobsOk s _ (set_align_result-SameJobs id result s.manager) v
step-JobsOk (sweeps now) s h x v = same-JobsOk s _ (sweep-SameJobs now s.manager) v
step-JobsOk (works i env) s h x v = work-JobsOk i env s _ refl x v
step-JobsOk (expires p old) s h x v = expire-JobsOk p old s v
step-JobsOk (idles i) s h x v = fire_idle-JobsOk i s _ v
