-- ===== src/Server/Jobs.antt =====
-- createJob, getJob, getJobAudio, getJobStream and jobStatusBody of internal/server/server.go,
-- over the queue manager and the audio store. `now` is what m.now() returns, and `id` what newID
-- returned.
use audio_server.Common.{ℕ, ltb, ◌&&◌, not, if◌then◌else◌, Option, none, some, List}
use audio_server.Segment.Text.{Text}
use audio_server.Server.Types.{Float, Provider, SpeechRequest, invalid_request}
use audio_server.Server.Route.{Routed, routed, rejected, panicked, status_of}
use audio_server.Queue.Types.{
  Name, Bytes, Ptr, Status, queued, running, failed, SpeechRequest as QueueRequest, SpeechResult,
  Error, Job, Manager,
}
use audio_server.Queue.Jobs.{Result, ok, err, submit, get, position, new_running_job}

-- The numbers that the queue manager has for texts and for speeds.
pub record Names : Type 0 where
  pub name : Text → Name
  pub spell : Name → Text
  pub speed : Float → ℕ

unfoldable pub queue_request : Names → SpeechRequest → QueueRequest
queue_request n req = record {
  model = n.name req.model;
  input = n.name req.input;
  voice = n.name req.voice;
  language = n.name req.language;
  response_format = n.name req.response_format;
  speed = n.speed req.speed;
  provider_options = req.provider_options;
  stream = req.stream;
  speaker_reference = req.speaker_reference;
  speaker_reference_filename = n.name req.speaker_reference_filename;
  speaker_reference_text = n.name req.speaker_reference_text;
}

-- The fields of a job's status; `queue_position` is `none` for -1, and the other fields are `none`
-- where the body lacks them. A job that is unknown has no status.
pub record Body : Type 0 where
  pub id : Name
  pub status : Option Status
  pub provider : Name
  pub created_at : ℕ
  pub queue_position : Option ℕ
  pub started_at : Option ℕ
  pub finished_at : Option ℕ
  pub error : Option Error
  pub stream_chunks : Option ℕ

abbrev pub if_failed : Status → Option Error → Option Error
if_failed failed e = e
if_failed _ e = none

abbrev pub if_running : Status → ℕ → Option ℕ
if_running running n = if ltb 0 n then some n else none
if_running _ n = none

abbrev pub if_queued : Status → Option ℕ → Option ℕ
if_queued queued position = position
if_queued _ position = some 0

abbrev pub body_of : Option ℕ → Job → Body
body_of position job = record {
  id = job.id;
  status = some job.status;
  provider = job.provider_id;
  created_at = job.created_at;
  queue_position = if_queued job.status position;
  started_at = job.started_at;
  finished_at = job.finished_at;
  error = if_failed job.status job.error;
  stream_chunks = if_running job.status job.stream_chunks;
}

abbrev pub zero_body : Body
zero_body = record {
  id = 0;
  status = none;
  provider = 0;
  created_at = 0;
  queue_position = some 0;
  started_at = none;
  finished_at = none;
  error = none;
  stream_chunks = none;
}

-- Get and Position are critical sections of their own: `between` is what others do to the manager
-- between them.
unfoldable pub job_status_body : (Manager → Manager) → Name → Manager → Body
unfolding get position
job_status_body between id m = elim (get id m) [
  | none ↦ zero_body
  | some job ↦ body_of (position id (between m)) job
]

pub data Response : Type 0 where
  -- an error with its status
  failure : ℕ → Response
  job_body : ℕ → Body → Response
  audio_body : SpeechResult → Response
  -- raw samples: all of them, or the chunks of a running job from here on
  pcm : Bytes → Response
  live : List Bytes → Response
  crash : Response

-- The stream that createJob starts in a goroutine: its job, and what it asks of its provider.
pub record Stream : Type 0 where
  pub job : Name
  pub provider : Provider
  pub request : SpeechRequest

pub record Created : Type 0 where
  pub manager : Manager
  pub response : Response
  pub stream : Option Stream

abbrev pub respond : Manager → Response → Created
respond m r = record { manager = m; response = r; stream = none }

-- What others do to the manager between the critical sections of a call: before the job is read,
-- and before its position is.
pub record Between : Type 0 where
  pub before_get : Manager → Manager
  pub before_position : Manager → Manager

-- `manager` in the answer is the one in which the job is made, before others change it.
abbrev pub status_answer : Between → Name → Manager → Response
status_answer b id m = job_body 202 (job_status_body b.before_position id (b.before_get m))

unfoldable pub accepted : Between → Manager × Result Ptr → Created
unfolding job_status_body
accepted b (m', err e) = respond m' (failure (status_of invalid_request))
accepted b (m', ok a) = respond m' (status_answer b (m'.heap a).id m')

unfoldable pub submit_job :
    Names → SpeechRequest → Provider → Name → ℕ → Between → Manager → Created
unfolding queue_request submit accepted
submit_job n req p id now b m = accepted b (submit (n.name p.id) id (queue_request n req) now m)

-- The goroutine is started before the response is made, and its steps are among those of others.
unfoldable pub start_stream :
    Names → SpeechRequest → Provider → Name → ℕ → Between → Manager → Created
unfolding queue_request new_running_job job_status_body
start_stream n req p id now b m =
    let (m', a) = new_running_job (n.name p.id) id (queue_request n req) now m in
    record {
      manager = m';
      response = status_answer b (m'.heap a).id m';
      stream = some (record { job = (m'.heap a).id; provider = p; request = req });
    }

unfoldable pub create_job : Names → Routed → Name → ℕ → Between → Manager → Created
unfolding submit_job start_stream
create_job n (rejected code) id now b m = respond m (failure code)
create_job n panicked id now b m = respond m crash
create_job n (routed req p) id now b m =
    if req.stream && not p.is_lifecycle
    then (if p.is_streamer then start_stream n req p id now b m else respond m (failure 400))
    else submit_job n req p id now b m
