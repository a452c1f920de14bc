-- ===== src/Server/Created.antt =====
-- Jobs that createJob of internal/server/server.go makes.
use audio_server.Common.{
  Bool, ℕ, ◌≡◌, refl, ap, subst, ◌&&◌, not, if◌then◌else◌, true, false, none, some, ◌∙◌, Option,
  Option-cases, [], ◌⊎◌, inl, inr, arith,
}
use audio_server.Server.Types.{SpeechRequest, Provider}
use audio_server.Server.Route.{Routed, routed, rejected, panicked}
use audio_server.Server.Jobs.{
  Names, queue_request, job_status_body, failure, job_body, crash, Created, accepted, submit_job,
  start_stream, create_job, respond, Between, Body, body_of, status_answer,
}
use audio_server.Server.Results.{get_job}
use audio_server.Queue.Types.{
  Name, SpeechRequest as QueueRequest, queued, running, Job, Manager, Provider as QueueProvider,
}
use audio_server.Queue.Jobs.{
  ok, position, get, submit, submit_with, enqueue, store_job, new_job, new_running_job,
}
use audio_server.Queue.Timers.{cancel_idle_timer}

get-enqueue :
    (p id : Name) (req : QueueRequest) (now : ℕ) (m : Manager)
    → (get id (enqueue p id req false now m) ≡ some (new_job p id req false now))
      × ((enqueue p id req false now m).heap m.next ≡ new_job p id req false now)
unfolding get enqueue store_job cancel_idle_timer
get-enqueue p id req now m = ground arith

get-new_running_job :
    (p id : Name) (req : QueueRequest) (now : ℕ) (m : Manager)
    → (get id (new_running_job p id req now m).0
        ≡ some ((new_running_job p id req now m).0.heap m.next))
      × ((new_running_job p id req now m).0.heap m.next ≡ record (new_job p id req false now) {
        status = running;
        started_at = some now;
        stream_bus = some [];
      })
unfolding get new_running_job store_job
get-new_running_job p id req now m = ground arith

-- The job that a request becomes in the queue, and the one that it becomes as a stream.
abbrev pub waiting : Names → SpeechRequest → Provider → Name → ℕ → Job
waiting n req p id now = record {
  id = id;
  provider_id = n.name p.id;
  request = queue_request n req;
  status = queued;
  result = none;
  error = none;
  created_at = now;
  started_at = none;
  finished_at = none;
  stream_chunks = 0;
  stream_bus = none;
  align_result = none;
  done = false;
  streams = false;
}

abbrev pub streaming : Names → SpeechRequest → Provider → Name → ℕ → Job
streaming n req p id now = record (waiting n req p id now) {
  status = running;
  started_at = some now;
  stream_bus = some [];
}

-- The bodies that describe them.
abbrev pub waiting_body : Names → Provider → Name → ℕ → Option ℕ → Body
waiting_body n p id now place = record {
  id = id;
  status = some queued;
  provider = n.name p.id;
  created_at = now;
  queue_position = place;
  started_at = none;
  finished_at = none;
  error = none;
  stream_chunks = none;
}

abbrev pub streaming_body : Names → Provider → Name → ℕ → Body
streaming_body n p id now = record (waiting_body n p id now (some 0)) {
  status = some running;
  started_at = some now;
}

abbrev pub Refused : ℕ → Manager → Created → Type 0
Refused code m c = (c.manager ≡ m) × (c.response ≡ failure code) × (c.stream ≡ none)

-- The job is known and queued, nothing is started, and the answer has its place in the queue.
abbrev pub Queued : Names → SpeechRequest → Provider → Name → ℕ → Between → Created → Type 0
Queued n req p id now b c =
    (get id c.manager ≡ some (waiting n req p id now))
    × (c.stream ≡ none)
    × (c.response
        ≡ job_body 202
            (waiting_body n p id now (position id (b.before_position (b.before_get c.manager)))))
    × (get_job b id c.manager
        ≡ job_body 200
            (waiting_body n p id now (position id (b.before_position (b.before_get c.manager)))))

-- The job is known and running, and a stream for it and for its request is started.
abbrev pub Streams : Names → SpeechRequest → Provider → Name → ℕ → Between → Created → Type 0
Streams n req p id now b c =
    (get id c.manager ≡ some (streaming n req p id now))
    × (c.stream ≡ some (record { job = id; provider = p; request = req }))
    × (c.response ≡ job_body 202 (streaming_body n p id now))
    × (get_job b id c.manager ≡ job_body 200 (streaming_body n p id now))

-- What createJob answers, by what was routed: `m` is the manager before.
abbrev pub Answered : Names → Routed → Name → ℕ → Between → Manager → Created → Type 0
Answered n (rejected code) id now b m c = Refused code m c
Answered n panicked id now b m c = (c.manager ≡ m) × (c.response ≡ crash) × (c.stream ≡ none)
Answered n (routed req p) id now b m c =
    ((req.stream ≡ true)
      × (p.is_lifecycle ≡ false)
      × (p.is_streamer ≡ true)
      × Streams n req p id now b c)
    ⊎ ((req.stream ≡ true) × (p.is_lifecycle ≡ false) × (p.is_streamer ≡ false) × Refused 400 m c)
    ⊎ (((req.stream ≡ false) ⊎ (p.is_lifecycle ≡ true))
        × (m.providers (n.name p.id) ≡ none)
        × Refused 400 m c)
    ⊎ (((req.stream ≡ false) ⊎ (p.is_lifecycle ≡ true)) × Queued n req p id now b c)

-- The job is not changed before the answer reads it.
abbrev pub IsKept : Name → Between → Created → Type 0
IsKept id b c = get id (b.before_get c.manager) ≡ get id c.manager

body-known :
    (b : Between) (id : Name) (m : Manager) (job : Job)
    → get id (b.before_get m) ≡ some job
    → status_answer b id m
      ≡ job_body 202 (body_of (position id (b.before_position (b.before_get m))) job)
unfolding job_status_body
body-known b id m job q = rw (job_status_body, q) refl

get_job-known :
    (b : Between) (id : Name) (m : Manager) (job : Job)
    → get id m ≡ some job
    → get id (b.before_get m) ≡ some job
    → get_job b id m ≡ job_body 200 (body_of (position id (b.before_position (b.before_get m))) job)
unfolding get_job job_status_body
get_job-known b id m job here q = rw (get_job, here) (rw (job_status_body, q) refl)

start_stream-Streams :
    (n : Names) (req : SpeechRequest) (p : Provider) (id : Name) (now : ℕ) (b : Between)
    (m : Manager)
    → IsKept id b (start_stream n req p id now b m)
    → Streams n req p id now b (start_stream n req p id now b m)
unfolding start_stream new_job
start_stream-Streams n req p id now b m kept =
    let (m', a) = new_running_job (n.name p.id) id (queue_request n req) now m in
    let (known, made) = get-new_running_job (n.name p.id) id (queue_request n req) now m in
    let here = known ∙ ap some made in
    let same_id = ap (λ j. j.id) made in
    (
      here,
      ap (λ i. some (record { job = i; provider = p; request = req })) same_id,
      ap (λ i. status_answer b i m') same_id
          ∙ body-known b id m' (streaming n req p id now) (kept ∙ here),
      get_job-known b id m' (streaming n req p id now) here (kept ∙ here),
    )

enqueued :
    (n : Names) (req : SpeechRequest) (p : Provider) (id : Name) (now : ℕ) (b : Between)
    (m : Manager) (r : QueueProvider)
    → m.providers (n.name p.id) ≡ some r
    → submit_job n req p id now b m
      ≡ accepted b (enqueue (n.name p.id) id (queue_request n req) false now m, ok m.next)
unfolding submit_job submit submit_with
enqueued n req p id now b m r q = rw (submit_job, submit, submit_with, q) refl

submit_job-Queued :
    (n : Names) (req : SpeechRequest) (p : Provider) (id : Name) (now : ℕ) (b : Between)
    (m : Manager)
    → IsKept id b (submit_job n req p id now b m)
    → ((m.providers (n.name p.id) ≡ none) × Refused 400 m (submit_job n req p id now b m))
      ⊎ Queued n req p id now b (submit_job n req p id now b m)
unfolding submit_job submit submit_with accepted new_job
submit_job-Queued n req p id now b m kept = elim (Option-cases (m.providers (n.name p.id))) [
  | inl q ↦ inl (q, rw (submit_job, submit, submit_with, q) (refl, refl, refl))
  | inr (r, q) ↦
      let (known, made) = get-enqueue (n.name p.id) id (queue_request n req) now m in
      let m' = enqueue (n.name p.id) id (queue_request n req) false now m in
      inr (
        rw (submit_job, submit, submit_with, q)
          (
            known,
            refl,
            ap (λ j. status_answer b j.id m') made
                ∙ body-known b id m' (waiting n req p id now)
                    (subst (λ c. IsKept id b c) (enqueued n req p id now b m r q) kept ∙ known),
            get_job-known b id m' (waiting n req p id now) known
                (subst (λ c. IsKept id b c) (enqueued n req p id now b m r q) kept ∙ known),
          ))
]

three_ways :
    (s l t : Bool) (K R : Created → Type 0) (x y z : Created)
    → K (if s && not l then (if t then x else y) else z)
    → (s ≡ true → l ≡ false → t ≡ true → K x → R x)
    → (s ≡ true → l ≡ false → t ≡ false → K y → R y)
    → ((s ≡ false) ⊎ (l ≡ true) → K z → R z)
    → R (if s && not l then (if t then x else y) else z)
three_ways true false true K R x y z k f g h = f refl refl refl k
three_ways true false false K R x y z k f g h = g refl refl refl k
three_ways true true t K R x y z k f g h = h (inr refl) k
three_ways false l t K R x y z k f g h = h (inl refl) k

-- If no other call changes the job before the answer reads it, createJob answers so: with the error
-- of decodeAndRoute, if that rejected the request; with 400 if it is a stream that the provider does
-- not support or the queue does not know the provider, where in each case it changes and starts
-- nothing; with 202 and a running job, if it is a stream of a streaming provider without a lifecycle,
-- where it starts the stream of that job; and else with 202 and a queued job with its place in the
-- queue at that time, where it starts nothing. Get finds that job as it was requested, and getJob
-- answers 200 with the same status.
pub create_job-Answered :
    (n : Names) (r : Routed) (id : Name) (now : ℕ) (b : Between) (m : Manager)
    → IsKept id b (create_job n r id now b m)
    → Answered n r id now b m (create_job n r id now b m)
unfolding create_job
create_job-Answered n (rejected code) id now b m kept = (refl, refl, refl)
create_job-Answered n panicked id now b m kept = (refl, refl, refl)
create_job-Answered n (routed req p) id now b m kept =
    three_ways req.stream p.is_lifecycle p.is_streamer (IsKept id b)
      (Answered n (routed req p) id now b m) (start_stream n req p id now b m)
      (respond m (failure 400)) (submit_job n req p id now b m) kept
      (λ s l t k. inl (s, l, t, start_stream-Streams n req p id now b m k))
      (λ s l t k. inr (inl (s, l, t, (refl, refl, refl))))
      (λ o k. submitted o (submit_job-Queued n req p id now b m k))
  where
    submitted :
        (req.stream ≡ false) ⊎ (p.is_lifecycle ≡ true)
        → ((m.providers (n.name p.id) ≡ none) × Refused 400 m (submit_job n req p id now b m))
          ⊎ Queued n req p id now b (submit_job n req p id now b m)
        → Answered n (routed req p) id now b m (submit_job n req p id now b m)
    submitted o (inl (q, refused)) = inr (inr (inl (o, q, refused)))
    submitted o (inr made) = inr (inr (inr (o, made)))
