-- ===== src/Server/Results.antt =====
-- The goroutine of createJob, and getJob, getJobAudio and getJobStream of
-- internal/server/server.go.
use audio_server.Common.{ℕ, Bool, Option, none, some, ◌⊎◌, inl, inr, List, [], ◌∷◌, ◌++◌}
use audio_server.Segment.Text.{Text}
use audio_server.Server.Jobs.{
  Names, job_status_body, Response, failure, job_body, Between, audio_body, pcm, live, Stream,
}
use audio_server.Queue.Types.{
  Name, Bytes, Status, queued, running, succeeded, failed, SpeechResult, Error, Job, Manager,
}
use audio_server.Queue.Jobs.{get, complete_job, fail_job, bump_chunk, no_result}
use audio_server.Store.Files as Files
use audio_server.Store.Files.{Directory, Writing, write, read}

-- The queue manager and the audio store, where there is one.
pub record State : Type 0 where
  pub manager : Manager
  pub store : Option Directory

-- The writes of the provider through chunkCounter.
unfoldable pub bump_chunks : Name → List Bytes → Manager → Manager
unfolding bump_chunk
bump_chunks id [] m = m
bump_chunks id (chunk ∷ chunks) m = bump_chunks id chunks (bump_chunk id chunk m)

abbrev pub concat : List Bytes → Bytes
concat [] = []
concat (chunk ∷ chunks) = chunk ++ concat chunks

-- audio/pcm and pcm.
abbrev pub pcm_type : Text
pcm_type = 97 ∷ 117 ∷ 100 ∷ 105 ∷ 111 ∷ 47 ∷ 112 ∷ 99 ∷ 109 ∷ []

abbrev pub pcm_format : Text
pcm_format = 112 ∷ 99 ∷ 109 ∷ []

unfoldable pub stream_result : Names → Stream → Bytes → SpeechResult
stream_result n t audio = record {
  audio = audio;
  content_type = n.name pcm_type;
  provider_id = n.name t.provider.id;
  model = n.name t.provider.id;
  voice = n.name t.request.voice;
  format = n.name pcm_format;
}

abbrev pub store_audio : Names → Writing → ℕ → Name → Bytes → Option Directory → Option Directory
store_audio n how now id audio none = none
store_audio n how now id audio (some d) = some (write how now (n.spell id) audio d).0

-- The provider writes `chunks` and returns the error `e`, if any; an error of the store is ignored.
unfoldable pub run_stream : Names → Stream → List Bytes → Option Error → Writing → ℕ → State → State
unfolding bump_chunks stream_result fail_job complete_job
run_stream n t chunks (some e) how now s = record s {
  manager = fail_job t.job e now (bump_chunks t.job chunks s.manager);
}
run_stream n t chunks none how now s = record {
  manager =
      complete_job t.job (stream_result n t (concat chunks)) now
        (bump_chunks t.job chunks s.manager);
  store = store_audio n how now t.job (concat chunks) s.store;
}

-- The job is looked for, and then read again for the body.
unfoldable pub get_job : Between → Name → Manager → Response
unfolding get job_status_body
get_job b id m = elim (get id m) [
  | none ↦ failure 404
  | some job ↦ job_body 200 (job_status_body b.before_position id (b.before_get m))
]

abbrev pub result_of : Job → SpeechResult
result_of job = elim job.result [ none ↦ no_result | some r ↦ r ]

abbrev pub audio_answer : Job → Status → Response
audio_answer job succeeded = audio_body (result_of job)
audio_answer job failed = failure 404
audio_answer job queued = failure 409
audio_answer job running = failure 409

unfoldable pub get_job_audio : Name → Manager → Response
unfolding get
get_job_audio id m = elim (get id m) [ none ↦ failure 404 | some job ↦ audio_answer job job.status ]

abbrev pub replay : Files.Error ⊎ Bytes → Response
replay (inl e) = failure 404
replay (inr audio) = pcm audio

abbrev pub live_or_conflict : Option (List Bytes) → Response
live_or_conflict none = failure 409
live_or_conflict (some bus) = live bus

abbrev pub stored_or_kept : Names → Bool → Name → Job → Option Directory → Response
stored_or_kept n readable id job none = pcm (result_of job).audio
stored_or_kept n readable id job (some d) = replay (read readable (n.spell id) d)

abbrev pub stream_answer : Names → Bool → Name → Option Directory → Job → Status → Response
stream_answer n readable id store job running = live_or_conflict job.stream_bus
stream_answer n readable id store job succeeded = stored_or_kept n readable id job store
stream_answer n readable id store job queued = failure 409
stream_answer n readable id store job failed = failure 409

-- Of a running job: the chunks that wait on its bus, which the later ones follow.
unfoldable pub get_job_stream : Names → Bool → Name → State → Response
unfolding get
get_job_stream n readable id s = elim (get id s.manager) [
  | none ↦ failure 404
  | some job ↦ stream_answer n readable id s.store job job.status
]
