-- ===== src/Queue/System.antt =====
-- The queue manager of internal/queue/queue.go with its goroutines: NewManager, and any
-- interleaving of client calls, worker steps, expiring timers and sweeps. An event that is not
-- possible in a state leaves it as it is.
use audio_server.Common.{
  ℕ, zero, suc, ◌*◌, ◌^◌, ◌==◌, ◌||◌, not, if◌then◌else◌, Bool, false, Option, none, some, is_some,
  List, [], ◌∷◌, ◌++◌, get_elem?, set, update,
}
use audio_server.Queue.Types.{
  Name, Bytes, SpeechRequest, SpeechResult, Error, Provider, Manager, ResourceState, unset,
}
use audio_server.Queue.Jobs.{
  submit, submit_stream, new_running_job, complete_job, fail_job, bump_chunk, set_align_result,
  sweep, new_job,
}
use audio_server.Queue.Worker.{Worker, waiting, Env, advance}
use audio_server.Queue.Idle.{Idler, entering, fire_idle, waits_timer, fire_timer}

pub record System : Type 0 where
  pub manager : Manager
  pub workers : List Worker
  pub idlers : List Idler

-- `workers` and `idle_unload` are the provider's entries of cfg.Workers and cfg.IdleUnload.
pub record ProviderConfig : Type 0 where
  pub id : Name
  pub provider : Provider
  pub workers : ℕ
  pub idle_unload : ℕ

pub record Config : Type 0 where
  pub providers : List ProviderConfig
  -- (provider, group) entries
  pub resource_groups : List (Name × Name)
  pub switch_delay : Name → ℕ
  pub job_ttl : ℕ
  pub has_gate : Bool

-- defaultJobTTL, ten minutes.
abbrev default_job_ttl : ℕ
default_job_ttl = 600 * 10 ^ 9

abbrev pub empty_request : SpeechRequest
empty_request = record {
  model = 0;
  input = 0;
  voice = 0;
  language = 0;
  response_format = 0;
  speed = 0;
  provider_options = [];
  stream = false;
  speaker_reference = [];
  speaker_reference_filename = 0;
  speaker_reference_text = 0;
}

-- A manager with no provider; memory that is not in use holds a job that nothing refers to.
unfoldable pub bare_manager : Config → Manager
unfolding new_job
bare_manager cfg = record {
  providers = λ _. none;
  queues = λ _. [];
  jobs = λ _. none;
  active = λ _. 0;
  warm = λ _. false;
  idle_delay = λ _. 0;
  idle_timers = λ _. unset;
  forgotten = λ _. 0;
  lifecycle_mu = λ _. false;
  resource_for = λ _. 0;
  resources = λ _. none;
  job_ttl = if cfg.job_ttl == 0 then default_job_ttl else cfg.job_ttl;
  has_gate = cfg.has_gate;
  heap = λ _. new_job 0 0 empty_request false 0;
  next = 0;
  panicked = false;
}

unfoldable pub add_providers : List ProviderConfig → Manager → Manager
add_providers [] m = m
add_providers (c ∷ cs) m = add_providers cs (record m {
  providers = update m.providers c.id (some c.provider);
  idle_delay = update m.idle_delay c.id c.idle_unload;
})

abbrev pub fresh_resource : Config → Name → ResourceState
fresh_resource cfg g = record {
  active_provider = 0;
  active_jobs = 0;
  idle_since = none;
  switch_delay = cfg.switch_delay g;
}

-- One round of the loop over cfg.ResourceGroups.
unfoldable pub add_group : Config → Name → Name → Manager → Manager
add_group cfg p g m =
    if not (is_some (m.providers p)) || (g == 0)
    then m
    else if is_some (m.resources g)
    then record m { resource_for = update m.resource_for p g }
    else record m {
      resource_for = update m.resource_for p g;
      resources = update m.resources g (some (fresh_resource cfg g));
    }

unfoldable pub add_groups : Config → List (Name × Name) → Manager → Manager
unfolding add_group
add_groups cfg [] m = m
add_groups cfg ((p, g) ∷ rest) m = add_groups cfg rest (add_group cfg p g m)

unfoldable pub spawn : ℕ → Name → List Worker
spawn zero p = []
spawn (suc n) p = record { provider = p; place = waiting } ∷ spawn n p

unfoldable pub spawn_all : List ProviderConfig → List Worker
unfolding spawn
spawn_all [] = []
spawn_all (c ∷ cs) = spawn (if c.workers == 0 then 1 else c.workers) c.id ++ spawn_all cs

unfoldable pub new_manager : Config → System
unfolding bare_manager add_providers add_groups spawn_all
new_manager cfg = record {
  manager = add_groups cfg cfg.resource_groups (add_providers cfg.providers (bare_manager cfg));
  workers = spawn_all cfg.providers;
  idlers = [];
}

pub data Event : Type 0 where
  submits submits_stream runs : Name → Name → SpeechRequest → ℕ → Event
  completes : Name → SpeechResult → ℕ → Event
  fails : Name → Error → ℕ → Event
  bumps : Name → Bytes → Event
  aligns : Name → Name → Event
  sweeps : ℕ → Event
  -- worker `i` moves, the timer of a provider or a forgotten one expires, idle call `i` moves
  works : ℕ → Env → Event
  expires : Name → Bool → Event
  idles : ℕ → Event

abbrev pub with_manager : System → Manager → System
with_manager s m = record s { manager = m }

unfoldable pub work : ℕ → Env → Option Worker → System → System
work i env none s = s
work i env (some w) s =
    let (place', m') = advance w.place env w.provider s.manager in
    record s { manager = m'; workers = set s.workers i (record w { place = place' }) }

unfoldable pub idle : ℕ → Option Idler → System → System
idle i none s = s
idle i (some d) s =
    let (place', m') = fire_idle d.place d.provider s.manager in
    record s { manager = m'; idlers = set s.idlers i (record d { place = place' }) }

unfoldable pub expire : Name → Bool → System → System
unfolding fire_timer waits_timer
expire p old s =
    if waits_timer old p s.manager
    then record s {
      manager = fire_timer old p s.manager;
      idlers = record { provider = p; place = entering } ∷ s.idlers;
    }
    else s

unfoldable pub step : Event → System → System
unfolding submit submit_stream new_running_job complete_job fail_job bump_chunk set_align_result
    sweep work idle expire fire_idle
step (submits p id req now) s = with_manager s (submit p id req now s.manager).0
step (submits_stream p id req now) s = with_manager s (submit_stream p id req now s.manager).0
step (runs p id req now) s = with_manager s (new_running_job p id req now s.manager).0
step (completes id result now) s = with_manager s (complete_job id result now s.manager)
step (fails id e now) s = with_manager s (fail_job id e now s.manager)
step (bumps id bytes) s = with_manager s (bump_chunk id bytes s.manager)
step (aligns id result) s = with_manager s (set_align_result id result s.manager)
step (sweeps now) s = with_manager s (sweep now s.manager)
step (works i env) s = work i env (get_elem? s.workers i) s
step (expires p old) s = expire p old s
step (idles i) s = idle i (get_elem? s.idlers i) s

unfoldable pub run : List Event → System → System
run [] s = s
run (e ∷ es) s = run es (step e s)
