-- ===== src/Separation/Runs.antt =====
-- Tests of internal/separationjob/manager.go: separator 5 puts out the stems 10 and 11.
use audio_server.Common.{
  ℕ, ◌==◌, ◌≡◌, inl, inr, refl, if◌then◌else◌, true, false, none, some, List, [], ◌∷◌,
}
use audio_server.Separation.Types.{
  queued, succeeded, Request, no_result, Job, Manager, member, Gate, opens, opens_for_free, Env,
  missing_stem,
}
use audio_server.Separation.Separate.{separate}
use audio_server.Separation.Jobs.{stem, run_job}
use audio_server.Separation.Stored.{IsOutput}
use audio_server.Separation.Stems.{listed, stem-run_job}

abbrev two_stems : Gate → Env
two_stems gate = record {
  to_lower = λ s. s;
  trim_space = λ s. s;
  normalizes = true;
  gate = gate;
  separated = some (5, (11, 8 ∷ []) ∷ (10, 7 ∷ []) ∷ []);
  writes = λ s. true;
}

abbrev request : List ℕ → Request
request stems = record { audio = 1 ∷ []; separation_model = 5; stems = stems }

abbrev one_job : Manager
one_job = record {
  jobs = λ id.
      if id == 1 then some (record { status = queued; result = no_result; error = none }) else none;
  separators = 5 ∷ [];
  default_separator = 5;
  has_normalizer = true;
  has_gate = true;
  has_store = true;
  store = λ id name. none;
  held = 0;
  crashed = false;
}

abbrev done : Job
done = record {
  status = succeeded;
  result = record { provider_id = 5; stems = 10 ∷ 11 ∷ [] };
  error = none;
}

done-run_job : (run_job (two_stems opens) 1 (request []) one_job).jobs 1 ≡ some done
unfolding run_job
done-run_job = refl

absent_stem : (separate (two_stems opens) 1 (request (12 ∷ [])) one_job).0 ≡ inl missing_stem
unfolding separate
absent_stem = refl

-- A gate that gives no release function ends the process.
free_gate : (run_job (two_stems opens_for_free) 1 (request []) one_job).crashed ≡ true
unfolding run_job
free_gate = refl

stem-run_job_example :
    (audio : List ℕ) × IsOutput 11 audio (listed (two_stems opens).separated)
    × (stem 1 11 (run_job (two_stems opens) 1 (request []) one_job) ≡ inr audio)
unfolding member
stem-run_job_example =
    stem-run_job (two_stems opens) 1 (request []) one_job done 11 done-run_job refl refl
