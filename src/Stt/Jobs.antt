-- ===== src/Stt/Jobs.antt =====
-- Submit, Get and run of internal/sttjob/manager.go. A job's id is its place in the list of jobs:
-- ids are random and do not repeat. Its goroutine moves by events, in any order with other calls.
-- Times, and the request that is passed on to the provider, are left out.
use audio_server.Common.{
  ℕ, suc, ◌-◌, ◌==◌, ◌||◌, not, if◌then◌else◌, Bool, true, false, Option, none, some, List, [], ◌∷◌,
  ◌++◌, get_elem?, set, length,
}

pub data Status : Type 0 where
  queued running succeeded failed : Status

-- Where a goroutine stands: before its first step, before the gate, in the provider's call, before
-- the deferred release, and at its end. The flag says that it holds a release function. A gate that
-- refuses leads to `refused`, with its error.
pub data Phase : Type 0 where
  created : Phase
  waiting : Phase
  refused : ℕ → Phase
  transcribing : Bool → Phase
  leaving : Bool → Phase
  over : Phase

-- The results that a provider returns are numbered, and 0 is the empty one; errors are numbered.
pub record Job : Type 0 where
  pub provider_id : ℕ
  pub source_model : ℕ
  pub status : Status
  pub result : ℕ
  pub error : Option ℕ
  pub phase : Phase

pub record Manager : Type 0 where
  pub providers : List ℕ
  pub has_gate : Bool
  pub jobs : List Job
  -- release functions that were given and not called
  pub held : ℕ

-- What the gate answers, and what the provider returns: a result beside an error, if any.
pub data Gate : Type 0 where
  opens opens_for_free : Gate
  refuses : ℕ → Gate

pub record Answer : Type 0 where
  pub gate : Gate
  pub result : ℕ
  pub error : Option ℕ

unfoldable pub new_manager : List ℕ → Bool → Manager
new_manager providers has_gate = record {
  providers = providers;
  has_gate = has_gate;
  jobs = [];
  held = 0;
}

unfoldable pub knows : ℕ → List ℕ → Bool
knows p [] = false
knows p (q ∷ qs) = (p == q) || knows p qs

abbrev pub new_job : ℕ → ℕ → Job
new_job provider_id source_model = record {
  provider_id = provider_id;
  source_model = source_model;
  status = queued;
  result = 0;
  error = none;
  phase = created;
}

-- The id of the new job, or an error. `made` says that newID succeeds.
unfoldable pub submit : Bool → ℕ → ℕ → Manager → Option ℕ × Manager
unfolding knows
submit made provider_id source_model m =
    if not (knows provider_id m.providers)
    then (none, m)
    else if not made
    then (none, m)
    else (some (length m.jobs), record m { jobs = m.jobs ++ new_job provider_id source_model ∷ [] })

unfoldable pub get : ℕ → Manager → Option Job
get id m = get_elem? m.jobs id

abbrev pub gate_phase : Gate → Phase
gate_phase opens = transcribing true
gate_phase opens_for_free = transcribing false
gate_phase (refuses e) = refused e

abbrev pub status_of : Option ℕ → Status
status_of none = succeeded
status_of (some e) = failed

-- The end of run: the result and the error are set, and the status by the error.
abbrev pub conclude : Bool → ℕ → Option ℕ → Job → Job
conclude holds result error job = record job {
  result = result;
  error = error;
  status = status_of error;
  phase = leaving holds;
}

-- The next step of a goroutine.
unfoldable pub advance : Bool → Answer → Phase → Job → Job
advance has_gate a created job = record job { status = running; phase = waiting }
advance has_gate a waiting job = record job {
  phase = if has_gate then gate_phase a.gate else transcribing false;
}
advance has_gate a (refused e) job = conclude false 0 (some e) job
advance has_gate a (transcribing holds) job = conclude holds a.result a.error job
advance has_gate a (leaving holds) job = record job { phase = over }
advance has_gate a over job = job

abbrev pub after_gate : Gate → ℕ → ℕ
after_gate opens held = suc held
after_gate opens_for_free held = held
after_gate (refuses e) held = held

unfoldable pub advance_held : Bool → Answer → Phase → ℕ → ℕ
advance_held has_gate a waiting held = if has_gate then after_gate a.gate held else held
advance_held has_gate a (leaving true) held = held - 1
advance_held has_gate a _ held = held

pub data Event : Type 0 where
  submits : Bool → ℕ → ℕ → Event
  moves : ℕ → Answer → Event

unfoldable pub move : ℕ → Answer → Option Job → Manager → Manager
unfolding advance advance_held
move id a none m = m
move id a (some job) m = record m {
  jobs = set m.jobs id (advance m.has_gate a job.phase job);
  held = advance_held m.has_gate a job.phase m.held;
}

unfoldable pub step : Event → Manager → Manager
unfolding submit move
step (submits made provider_id source_model) m = (submit made provider_id source_model m).1
step (moves id a) m = move id a (get_elem? m.jobs id) m

unfoldable pub run : List Event → Manager → Manager
unfolding step
run [] m = m
run (e ∷ es) m = run es (step e m)
