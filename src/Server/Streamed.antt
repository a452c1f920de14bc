-- ===== src/Server/Streamed.antt =====
-- The end of a stream that createJob of internal/server/server.go started.
use audio_server.Common.{
  ℕ, ◌≡◌, refl, ap, sym, ◌∙◌, subst, ◌&&◌, not, true, Option, none, some, List, [], ◌∷◌, inr, arith,
  if_both,
}
use audio_server.Server.Types.{SpeechRequest, Provider}
use audio_server.Server.Route.{Routed, routed, rejected, panicked}
use audio_server.Server.Jobs.{
  Names, Between, queue_request, failure, audio_body, pcm, Stream, Created, submit_job,
  start_stream, create_job, accepted,
}
use audio_server.Server.Results.{
  State, bump_chunks, concat, replay, stream_result, store_audio, run_stream, get_job_audio,
  get_job_stream,
}
use audio_server.Queue.Types.{
  Name, Bytes, Ptr, SpeechResult, succeeded, failed, Error, Job, Manager,
}
use audio_server.Queue.Jobs.{
  Result, ok, err, submit, new_job, store_job, new_running_job, get, complete_job, fail_job,
  bump_chunk, conclude, conclude_at, close_bus, clear_ephemeral,
}
use audio_server.Store.Files.{Directory, written, write, read, put, path}
use audio_server.Store.Names.{same_name_refl}

jobs-bump_chunks :
    (id : Name) (chunks : List Bytes) (m : Manager) (i : Name)
    → (bump_chunks id chunks m).jobs i ≡ m.jobs i
unfolding bump_chunks bump_chunk
jobs-bump_chunks id [] m i = refl
jobs-bump_chunks id (chunk ∷ chunks) m i =
    jobs-bump_chunks id chunks (bump_chunk id chunk m) i ∙ ground arith

-- What the end of a job leaves of it.
get-complete_job :
    (id : Name) (result : SpeechResult) (now : ℕ) (m : Manager) (a : Ptr)
    → m.jobs id ≡ some a
    → (job : Job) × (get id (complete_job id result now m) ≡ some job)
      × (job.status ≡ succeeded)
      × (job.result ≡ some result)
unfolding get complete_job conclude_at conclude clear_ephemeral close_bus
get-complete_job id result now m a q =
    ((complete_job id result now m).heap a, ground (arith, q), ground (arith, q), ground (arith, q))

get-fail_job :
    (id : Name) (e : Error) (now : ℕ) (m : Manager) (a : Ptr)
    → m.jobs id ≡ some a
    → (job : Job) × (get id (fail_job id e now m) ≡ some job) × (job.status ≡ failed)
unfolding get fail_job conclude_at conclude clear_ephemeral close_bus
get-fail_job id e now m a q = ((fail_job id e now m).heap a, ground (arith, q), ground (arith, q))

-- A stream that createJob started belongs to the new job.
abbrev IsOwn : Name → Created → Type 0
IsOwn id c =
    (t : Stream) → c.stream ≡ some t → (t.job ≡ id) × ((a : Ptr) × (c.manager.jobs id ≡ some a))

start_stream-IsOwn :
    (n : Names) (req : SpeechRequest) (p : Provider) (id : Name) (now : ℕ) (b : Between)
    (m : Manager)
    → IsOwn id (start_stream n req p id now b m)
unfolding start_stream new_running_job store_job new_job
start_stream-IsOwn n req p id now b m t q = (ground (arith, q), (m.next, ground arith))

accepted-IsOwn : (id : Name) (b : Between) (r : Manager × Result Ptr) → IsOwn id (accepted b r)
unfolding accepted
accepted-IsOwn id b (m', ok a) t q = ground (arith, q)
accepted-IsOwn id b (m', err e) t q = ground (arith, q)

create_job-IsOwn :
    (n : Names) (r : Routed) (id : Name) (now : ℕ) (b : Between) (m : Manager)
    → IsOwn id (create_job n r id now b m)
unfolding create_job submit_job
create_job-IsOwn n (rejected code) id now b m t q = ground (arith, q)
create_job-IsOwn n panicked id now b m t q = ground (arith, q)
create_job-IsOwn n (routed req p) id now b m t q =
    if_both (IsOwn id) (req.stream && not p.is_lifecycle) _ _
      (if_both (IsOwn id) p.is_streamer _ _ (start_stream-IsOwn n req p id now b m)
        (λ t' q'. ground (arith, q')))
      (accepted-IsOwn id b (submit (n.name p.id) id (queue_request n req) now m)) t q

get_job_audio-known :
    (id : Name) (m : Manager) (job : Job) (result : SpeechResult)
    → get id m ≡ some job
    → job.status ≡ succeeded
    → job.result ≡ some result
    → get_job_audio id m ≡ audio_body result
unfolding get_job_audio
get_job_audio-known id m job result q s r = rw (get_job_audio, q, s, r) refl

get_job_audio-failed :
    (id : Name) (m : Manager) (job : Job)
    → get id m ≡ some job
    → job.status ≡ failed
    → get_job_audio id m ≡ failure 404
unfolding get_job_audio
get_job_audio-failed id m job q s = rw (get_job_audio, q, s) refl

read-store_audio :
    (n : Names) (id : Name) (now : ℕ) (audio : Bytes) (d : Directory)
    → read true (n.spell id) (write written now (n.spell id) audio d).0 ≡ inr audio
unfolding read write put
read-store_audio n id now audio d = ground (arith, same_name_refl (path (n.spell id)))

get_job_stream-known :
    (n : Names) (id : Name) (m : Manager) (job : Job) (result : SpeechResult) (now : ℕ)
    (store : Option Directory)
    → get id m ≡ some job
    → job.status ≡ succeeded
    → job.result ≡ some result
    → get_job_stream n true id
        (record { manager = m; store = store_audio n written now id result.audio store })
      ≡ pcm result.audio
unfolding get_job_stream
get_job_stream-known n id m job result now none q s r = rw (get_job_stream, q, s, r) refl
get_job_stream-known n id m job result now (some d) q s r =
    rw (get_job_stream, q, s) (ap replay (read-store_audio n id now result.audio d))

-- The state in which the goroutine of a new job begins.
abbrev pub begun : Created → Option Directory → State
begun c store = record { manager = c.manager; store = store }

-- If createJob started a stream, then after the provider has written its chunks getJobAudio answers
-- for that job with all of them in order, and getJobStream with the same bytes, from the store if
-- there is one and its write succeeded; if the provider failed instead, getJobAudio answers 404.
pub get_job_audio-run_stream :
    (n : Names) (r : Routed) (id : Name) (now end_time : ℕ) (b : Between) (m : Manager) (t : Stream)
    (chunks : List Bytes) (e : Error) (store : Option Directory)
    → (create_job n r id now b m).stream ≡ some t
    → (get_job_audio id
          (run_stream n t chunks none written end_time
            (begun (create_job n r id now b m) store)).manager
        ≡ audio_body (stream_result n t (concat chunks)))
      × (get_job_stream n true id
            (run_stream n t chunks none written end_time (begun (create_job n r id now b m) store))
          ≡ pcm (concat chunks))
      × (get_job_audio id
            (run_stream n t chunks
              (some e)
              written
              end_time
              (begun (create_job n r id now b m) store)).manager
          ≡ failure 404)
unfolding run_stream stream_result
get_job_audio-run_stream n r id now end_time b m t chunks e store started =
    let c = create_job n r id now b m in
    let (own, (a, at)) = create_job-IsOwn n r id now b m t started in
    let m' = bump_chunks t.job chunks c.manager in
    let known =
      jobs-bump_chunks t.job chunks c.manager t.job
      ∙ subst (λ i. c.manager.jobs i ≡ some a) (sym own) at in
    let result = stream_result n t (concat chunks) in
    let (job, found, done, kept) = get-complete_job t.job result end_time m' a known in
    let (job', found', failed') = get-fail_job t.job e end_time m' a known in
    let ended = complete_job t.job result end_time m' in
    subst
      (λ i.
        (get_job_audio i ended ≡ audio_body result)
        × (get_job_stream n true i (record {
          manager = ended;
          store = store_audio n written end_time t.job (concat chunks) store;
        })
            ≡ pcm (concat chunks))
        × (get_job_audio i (fail_job t.job e end_time m') ≡ failure 404))
      own
      (
        get_job_audio-known t.job ended job result found done kept,
        get_job_stream-known n t.job ended job result end_time store found done kept,
        get_job_audio-failed t.job (fail_job t.job e end_time m') job' found' failed',
      )
