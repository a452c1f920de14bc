-- ===== src/Queue/Worker.antt =====
-- The workers of internal/queue/queue.go: worker, dequeue, run, finish and streamWriter.Write.
-- A worker's place in the code is its `Place`; `advance` takes it to the next one, through one
-- critical section or one call out. What a call out answers is in `Env`.
use audio_server.Common.{
  ℕ, suc, ◌-◌, ◌==◌, ◌&&◌, not, if◌then◌else◌, Bool, true, false, Option, none, some, List, [], ◌∷◌,
  ◌++◌, is_empty, update,
}
use audio_server.Queue.Types.{
  Name, Bytes, Ptr, running, SpeechResult, StreamMeta, Error, resource_unavailable, warm_up_failed,
  external, Manager, Provider,
}
use audio_server.Queue.Timers.{start_idle_timer}
use audio_server.Queue.Jobs.{conclude_at, no_result, bump_chunk}
use audio_server.Queue.Resources.{acquire_resource, release_resource}

-- What a streaming provider does next: it reports a header, writes a chunk (which the client
-- takes or refuses), or returns.
pub data StreamAction : Type 0 where
  header : StreamMeta → StreamAction
  chunk : Bytes → Bool → StreamAction
  returns : Option Name → StreamAction

pub record Env : Type 0 where
  pub now : ℕ
  -- the errors of runGate and of Warm, if they return one
  pub gate : Option Name
  pub warm_up : Option Name
  -- what Synthesize returns
  pub synthesis : SpeechResult
  pub synthesis_error : Option Name
  pub streaming : StreamAction

pub data Place : Type 0 where
  -- without the resource: before the wait for a job, and in the loop of acquireResource
  waiting acquiring : Place
  -- with the resource and no job: before the pop, and on the ways out
  picking backing_off releasing : Place
  -- with a job: at the gate, in the warm-up, in the synthesis, or before its failure is recorded
  gating checking locking rechecking warming marking synthesizing : Ptr → Place
  stream_run : Ptr → StreamMeta → Bytes → Place
  failing : Ptr → Error → Place

pub record Worker : Type 0 where
  pub provider : Name
  pub place : Place

unfoldable pub start_job : ℕ → Name → Ptr → List Ptr → Manager → Manager
start_job now p a rest m = record m {
  queues = update m.queues p rest;
  active = update m.active p (suc (m.active p));
  heap = update m.heap a (record (m.heap a) { status = running; started_at = some now });
}

-- `m.active[p]--` at 0 would be -1 in the source; a worker that finishes a job is counted.
unfoldable pub finish : Name → Ptr → SpeechResult → Option Error → ℕ → Manager → Manager
unfolding conclude_at start_idle_timer
finish p a result e now m =
    let m' = conclude_at now e result a m in
    let left = m'.active p - 1 in
    let m'' = record m' { active = update m'.active p left } in
    if (left == 0) && is_empty (m''.queues p) then start_idle_timer p m'' else m''

unfoldable pub has_lifecycle : Option Provider → Bool
has_lifecycle none = false
has_lifecycle (some r) = r.lifecycle

-- The literals "pcm" and "audio/pcm".
abbrev pcm : Name
pcm = 1

abbrev audio_pcm : Name
audio_pcm = 2

abbrev default_meta : Name → StreamMeta
default_meta p = record {
  provider_id = p;
  model = p;
  voice = 0;
  format = pcm;
  content_type = audio_pcm;
}

abbrev pub streamed : StreamMeta → Bytes → SpeechResult
streamed meta audio = record {
  audio = audio;
  content_type = meta.content_type;
  provider_id = meta.provider_id;
  model = meta.model;
  voice = meta.voice;
  format = meta.format;
}

-- Where a job goes whose provider is warm.
unfoldable pub serve : Name → Ptr → Manager → Place
serve p a m = if (m.heap a).streams then stream_run a (default_meta p) [] else synthesizing a

unfoldable pub set_lifecycle_mu : Name → Bool → Manager → Manager
set_lifecycle_mu p held m = record m { lifecycle_mu = update m.lifecycle_mu p held }

-- Where a worker stands after a round of acquireResource.
abbrev pub acquire_outcome : Manager → Option Manager → Place × Manager
acquire_outcome m none = (acquiring, m)
acquire_outcome m (some m') = (picking, m')

-- The second critical section of dequeue, on the provider's queue.
unfoldable pub pick : ℕ → Name → Manager → List Ptr → Place × Manager
unfolding start_job
pick now p m [] = (backing_off, m)
pick now p m (a ∷ rest) = (gating a, start_job now p a rest m)

abbrev pub call_error : Option Name → Option Error
call_error none = none
call_error (some e) = some (external e)

-- One call back or the return of SynthesizeStream.
unfoldable pub stream_step :
    Ptr → StreamMeta → Bytes → ℕ → Name → Manager → StreamAction → Place × Manager
unfolding finish bump_chunk
stream_step a meta audio now p m (header meta') = (stream_run a meta' audio, m)
stream_step a meta audio now p m (chunk bytes taken) =
    (stream_run a meta (if taken then audio ++ bytes else audio), bump_chunk (m.heap a).id bytes m)
stream_step a meta audio now p m (returns none) =
    (releasing, finish p a (streamed meta audio) none now m)
stream_step a meta audio now p m (returns (some e)) =
    (releasing, finish p a no_result (some (external e)) now m)

unfoldable pub advance : Place → Env → Name → Manager → Place × Manager
unfolding pick finish has_lifecycle serve set_lifecycle_mu stream_step acquire_resource
    release_resource
advance waiting env p m = (if is_empty (m.queues p) then waiting else acquiring, m)
advance acquiring env p m = acquire_outcome m (acquire_resource p env.now m)
advance picking env p m = pick env.now p m (m.queues p)
advance backing_off env p m = (waiting, release_resource p env.now m)
advance releasing env p m = (waiting, release_resource p env.now m)
advance (gating a) env p m =
    if m.has_gate
    then elim env.gate [ none ↦ (checking a, m) | some e ↦ (failing a (resource_unavailable e), m) ]
    else (checking a, m)
advance (checking a) env p m =
    if has_lifecycle (m.providers p) && not (m.warm p) then (locking a, m) else (serve p a m, m)
advance (locking a) env p m =
    if m.lifecycle_mu p then (locking a, m) else (rechecking a, set_lifecycle_mu p true m)
advance (rechecking a) env p m =
    if m.warm p then (serve p a m, set_lifecycle_mu p false m) else (warming a, m)
advance (warming a) env p m = elim env.warm_up [
  | none ↦ (marking a, set_lifecycle_mu p false m)
  | some e ↦ (failing a (warm_up_failed e), set_lifecycle_mu p false m)
]
advance (marking a) env p m = (serve p a m, record m { warm = update m.warm p true })
advance (synthesizing a) env p m =
    (releasing, finish p a env.synthesis (call_error env.synthesis_error) env.now m)
advance (stream_run a meta audio) env p m = stream_step a meta audio env.now p m env.streaming
advance (failing a e) env p m = (releasing, finish p a no_result (some e) env.now m)
