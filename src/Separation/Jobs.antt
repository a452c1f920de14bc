-- ===== src/Separation/Jobs.antt =====
-- Submit, Get, Stem and run of internal/separationjob/manager.go. The goroutine of a job passes
-- through `begin`, `separate` and `conclude`, and other calls may come in between.
use audio_server.Common.{
  ℕ, ◌==◌, ◌&&◌, ◌||◌, not, if◌then◌else◌, is_empty, Bool, true, false, ◌⊎◌, inl, inr, Option, none,
  some, List, update,
}
use audio_server.Separation.Types.{
  Status, queued, running, succeeded, failed, Request, Result, no_result, Error, not_configured,
  no_audio, unknown_model, no_id, not_found, not_finished, no_stem, read_failed, Job, Store,
  Manager, member, Env,
}
use audio_server.Separation.Separate.{separate}

unfoldable pub new_manager : List ℕ → ℕ → Bool → Bool → Bool → Store → Manager
new_manager separators default_separator has_normalizer has_gate has_store store = record {
  jobs = λ id. none;
  separators = separators;
  default_separator = default_separator;
  has_normalizer = has_normalizer;
  has_gate = has_gate;
  has_store = has_store;
  store = store;
  held = 0;
  crashed = false;
}

abbrev pub enabled : Manager → Bool
enabled m = not (is_empty m.separators) && m.has_store

-- The names that stand for the default.
abbrev auto : ℕ
auto = 1

abbrev pub resolve : Manager → ℕ → ℕ
resolve m model = if (model == 0) || (model == auto) then m.default_separator else model

unfoldable pub add_job : Request → Manager → Option ℕ → (Error ⊎ (ℕ × Request)) × Manager
add_job req m none = (inl no_id, m)
add_job req m (some id) = (
  inr (id, req),
  record m {
    jobs = update m.jobs id (some (record { status = queued; result = no_result; error = none }));
  },
)

-- The id of the job and the request that its goroutine runs, or an error. `id` is what newID makes.
unfoldable pub submit : Option ℕ → Request → Manager → (Error ⊎ (ℕ × Request)) × Manager
unfolding member add_job
submit id req m =
    if not (enabled m)
    then (inl not_configured, m)
    else if is_empty req.audio
    then (inl no_audio, m)
    else if not (member (resolve m req.separation_model) m.separators)
    then (inl unknown_model, m)
    else add_job (record req { separation_model = resolve m req.separation_model }) m id

abbrev found : Option Job → Error ⊎ Job
found none = inl not_found
found (some job) = inr job

unfoldable pub get : ℕ → Manager → Error ⊎ Job
get id m = found (m.jobs id)

abbrev read : Option (List ℕ) → Error ⊎ List ℕ
read none = inl read_failed
read (some audio) = inr audio

abbrev is_succeeded : Status → Bool
is_succeeded succeeded = true
is_succeeded _ = false

unfoldable pub stem_of : ℕ → ℕ → Manager → Error ⊎ Job → Error ⊎ List ℕ
unfolding member
stem_of id name m (inl e) = inl e
stem_of id name m (inr job) =
    if not (is_succeeded job.status)
    then inl not_finished
    else if not (member name job.result.stems)
    then inl no_stem
    else read (m.store id name)

unfoldable pub stem : ℕ → ℕ → Manager → Error ⊎ List ℕ
unfolding get stem_of
stem id name m = stem_of id name m (get id m)

abbrev pub started : Job → Job
started job = record job { status = running }

abbrev pub change_job : (Job → Job) → Option Job → Option Job
change_job f none = none
change_job f (some job) = some (f job)

unfoldable pub begin : ℕ → Manager → Manager
begin id m = record m { jobs = update m.jobs id (change_job started (m.jobs id)) }

abbrev pub ended : Error ⊎ Result → Job → Job
ended (inl e) job = record { status = failed; result = no_result; error = some e }
ended (inr r) job = record { status = succeeded; result = r; error = none }

unfoldable pub conclude : ℕ → (Error ⊎ Result) × Manager → Manager
conclude id (r, m) =
    if m.crashed then m else record m { jobs = update m.jobs id (change_job (ended r) (m.jobs id)) }

unfoldable pub run_job : Env → ℕ → Request → Manager → Manager
unfolding begin separate conclude
run_job env id req m = conclude id (separate env id req (begin id m))
