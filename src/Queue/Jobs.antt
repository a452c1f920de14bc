-- ===== src/Queue/Jobs.antt =====
-- The calls of internal/queue/queue.go that submit, read and complete jobs. Each is one critical
-- section of the manager's mutex. `id` is what newID returned, and `now` what m.now() returned.
use audio_server.Common.{
  ℕ, suc, ◌+◌, ◌==◌, ltb, ◌&&◌, ◌||◌, if◌then◌else◌, Bool, true, false, Option, none, some, List,
  [], ◌∷◌, ◌++◌, length, update,
}
use audio_server.Queue.Types.{
  Name, Bytes, Ptr, Status, queued, running, succeeded, failed, SpeechRequest, SpeechResult, Error,
  unknown_provider, Job, Manager,
}
use audio_server.Queue.Timers.{cancel_idle_timer}

pub data Result {ℓ} (A : Type ℓ) : Type ℓ where
  ok : A → Result A
  err : Error → Result A

unfoldable pub new_job : Name → Name → SpeechRequest → Bool → ℕ → Job
new_job p id req streams now = record {
  id = id;
  provider_id = p;
  request = req;
  status = queued;
  result = none;
  error = none;
  created_at = now;
  started_at = none;
  finished_at = none;
  stream_chunks = 0;
  stream_bus = none;
  align_result = none;
  done = false;
  streams = streams;
}

-- A new job in memory, known under its id.
unfoldable pub store_job : Job → Manager → Manager
store_job j m = record m {
  heap = update m.heap m.next j;
  next = suc m.next;
  jobs = update m.jobs j.id (some m.next);
}

unfoldable pub enqueue : Name → Name → SpeechRequest → Bool → ℕ → Manager → Manager
unfolding new_job store_job cancel_idle_timer
enqueue p id req streams now m =
    let m' = store_job (new_job p id req streams now) m in
    cancel_idle_timer p (record m' { queues = update m'.queues p (m'.queues p ++ (m.next ∷ [])) })

-- The job's address is the one that was free. The broadcast only wakes workers.
unfoldable pub submit_with : Bool → Name → Name → SpeechRequest → ℕ → Manager → Manager × Result Ptr
unfolding enqueue
submit_with streams p id req now m = elim (m.providers p) [
  | none ↦ (m, err unknown_provider)
  | some _ ↦ (enqueue p id req streams now m, ok m.next)
]

unfoldable pub submit : Name → Name → SpeechRequest → ℕ → Manager → Manager × Result Ptr
unfolding submit_with
submit = submit_with false

unfoldable pub submit_stream : Name → Name → SpeechRequest → ℕ → Manager → Manager × Result Ptr
unfolding submit_with
submit_stream = submit_with true

unfoldable pub get : Name → Manager → Option Job
get id m = elim (m.jobs id) [ none ↦ none | some a ↦ some (m.heap a) ]

abbrev pub is_queued : Status → Bool
is_queued queued = true
is_queued running = false
is_queued succeeded = false
is_queued failed = false

-- The loop of Position over a provider's queue; `i` is the index reached.
unfoldable pub position_from : (Ptr → Job) → Name → ℕ → List Ptr → ℕ
position_from heap id i [] = 0
position_from heap id i (q ∷ qs) =
    let rest = position_from heap id (suc i) qs in if (heap q).id == id then i + 1 else rest

-- `none` stands for the answer -1.
unfoldable pub position : Name → Manager → Option ℕ
unfolding position_from
position id m = elim (m.jobs id) [
  | none ↦ none
  | some a ↦
      if is_queued (m.heap a).status
      then some (position_from m.heap id 0 (m.queues (m.heap a).provider_id))
      else some 0
]

unfoldable pub new_running_job : Name → Name → SpeechRequest → ℕ → Manager → Manager × Ptr
unfolding new_job store_job
new_running_job p id req now m =
    let j = new_job p id req false now in
    let j' = record j { status = running; started_at = some now; stream_bus = some [] } in
    (store_job j' m, m.next)

unfoldable pub clear_ephemeral : Job → Job
clear_ephemeral j = record j { request = cleared j.request }
  where
    cleared : SpeechRequest → SpeechRequest
    cleared r = record r {
      speaker_reference = [];
      speaker_reference_filename = 0;
      speaker_reference_text = 0;
    }

-- The end of a job, with its result or its error; the channel `done` is closed.
unfoldable pub conclude : ℕ → Option Error → SpeechResult → Job → Job
unfolding clear_ephemeral
conclude now none result j =
    let j' = record j { finished_at = some now; status = succeeded; result = some result } in
    record (clear_ephemeral j') { done = true }
conclude now (some e) result j =
    let j' = record j { finished_at = some now; status = failed; error = some e } in
    record (clear_ephemeral j') { done = true }

-- Closing a channel twice is a panic.
unfoldable pub conclude_at : ℕ → Option Error → SpeechResult → Ptr → Manager → Manager
unfolding conclude
conclude_at now e result a m = record m {
  heap = update m.heap a (conclude now e result (m.heap a));
  panicked = m.panicked || (m.heap a).done;
}

abbrev pub on_job : Name → (Ptr → Manager → Manager) → Manager → Manager
on_job id f m = elim (m.jobs id) [ none ↦ m | some a ↦ f a m ]

unfoldable pub close_bus : Ptr → Manager → Manager
close_bus a m = record m { heap = update m.heap a (record (m.heap a) { stream_bus = none }) }

abbrev pub no_result : SpeechResult
no_result = record {
  audio = [];
  content_type = 0;
  provider_id = 0;
  model = 0;
  voice = 0;
  format = 0;
}

unfoldable pub complete_job : Name → SpeechResult → ℕ → Manager → Manager
unfolding conclude_at close_bus
complete_job id result now = on_job id (λ a m. close_bus a (conclude_at now none result a m))

unfoldable pub fail_job : Name → Error → ℕ → Manager → Manager
unfolding conclude_at close_bus
fail_job id e now = on_job id (λ a m. close_bus a (conclude_at now (some e) no_result a m))

-- The capacity of a stream bus.
abbrev bus_size : ℕ
bus_size = 64

-- A full bus drops the chunk.
abbrev push_chunk : Bytes → Option (List Bytes) → Option (List Bytes)
push_chunk chunk none = none
push_chunk chunk (some bus) = some (if ltb (length bus) bus_size then bus ++ (chunk ∷ []) else bus)

unfoldable pub bump_chunk : Name → Bytes → Manager → Manager
bump_chunk id chunk = on_job id λ a m. record m {
  heap = update m.heap a (record (m.heap a) {
    stream_chunks = suc (m.heap a).stream_chunks;
    stream_bus = push_chunk chunk (m.heap a).stream_bus;
  });
}

unfoldable pub set_align_result : Name → Name → Manager → Manager
set_align_result id result =
    on_job id
      λ a m. record m { heap = update m.heap a (record (m.heap a) { align_result = some result }) }

unfoldable pub align_result : Name → Manager → Option Name
align_result id m = elim (m.jobs id) [ none ↦ none | some a ↦ (m.heap a).align_result ]

-- Whether sweep deletes a job at `now`: it is finished, and was so before now - ttl.
unfoldable pub is_expired : ℕ → ℕ → Job → Bool
is_expired now ttl j = is_finished j.status && before j.finished_at
  where
    is_finished : Status → Bool
    is_finished succeeded = true
    is_finished failed = true
    is_finished queued = false
    is_finished running = false

    before : Option ℕ → Bool
    before none = true
    before (some t) = ltb (t + ttl) now

-- The loop of sweep deletes each entry by a test of its own.
unfoldable pub sweep : ℕ → Manager → Manager
unfolding is_expired
sweep now m = record m { jobs = λ id. keep (m.jobs id) }
  where
    keep : Option Ptr → Option Ptr
    keep none = none
    keep (some a) = if is_expired now m.job_ttl (m.heap a) then none else some a
