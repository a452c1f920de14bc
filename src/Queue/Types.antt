-- ===== src/Queue/Types.antt =====
-- The state of the queue manager (internal/queue/queue.go, internal/provider/provider.go).
-- A `Name` numbers the strings that the manager compares and passes on; 0 is the empty string,
-- which is also what Go reads at a key that a map of strings lacks. Times are nanoseconds.
use audio_server.Common.{ℕ, Bool, Option, List}

abbrev pub Name : Type 0
Name = ℕ

abbrev pub Bytes : Type 0
Bytes = List ℕ

-- A pointer `*Job`.
abbrev pub Ptr : Type 0
Ptr = ℕ

pub data Status : Type 0 where
  queued running succeeded failed : Status

-- `speed` and the provider's options are passed on unread.
pub record SpeechRequest : Type 0 where
  pub model : Name
  pub input : Name
  pub voice : Name
  pub language : Name
  pub response_format : Name
  pub speed : ℕ
  pub provider_options : Bytes
  pub stream : Bool
  pub speaker_reference : Bytes
  pub speaker_reference_filename : Name
  pub speaker_reference_text : Name

pub record SpeechResult : Type 0 where
  pub audio : Bytes
  pub content_type : Name
  pub provider_id : Name
  pub model : Name
  pub voice : Name
  pub format : Name

pub record StreamMeta : Type 0 where
  pub provider_id : Name
  pub model : Name
  pub voice : Name
  pub format : Name
  pub content_type : Name

pub data Error : Type 0 where
  unknown_provider not_found canceled : Error
  resource_unavailable warm_up_failed external : Name → Error

pub record Job : Type 0 where
  pub id : Name
  pub provider_id : Name
  pub request : SpeechRequest
  pub status : Status
  pub result : Option SpeechResult
  pub error : Option Error
  pub created_at : ℕ
  pub started_at : Option ℕ
  pub finished_at : Option ℕ
  pub stream_chunks : ℕ
  pub stream_bus : Option (List Bytes)
  pub align_result : Option Name
  -- whether the channel `done` is closed
  pub done : Bool
  -- whether `stream` is set
  pub streams : Bool

-- `lifecycle` says that the provider implements provider.Lifecycle.
pub record Provider : Type 0 where
  pub lifecycle : Bool

pub record ResourceState : Type 0 where
  pub active_provider : Name
  pub active_jobs : ℕ
  pub idle_since : Option ℕ
  pub switch_delay : ℕ

-- A timer made by time.AfterFunc: it has fired when its function was started.
pub data Timer : Type 0 where
  unset armed fired : Timer

pub record Manager : Type 0 where
  pub providers : Name → Option Provider
  pub queues : Name → List Ptr
  pub jobs : Name → Option Ptr
  pub active : Name → ℕ
  pub warm : Name → Bool
  pub idle_delay : Name → ℕ
  pub idle_timers : Name → Timer
  -- the timers that wait although their entry was cleared
  pub forgotten : Name → ℕ
  -- whether the provider's lifecycle mutex is held
  pub lifecycle_mu : Name → Bool
  pub resource_for : Name → Name
  pub resources : Name → Option ResourceState
  pub job_ttl : ℕ
  pub has_gate : Bool
  -- the jobs in memory, and the first address that is free
  pub heap : Ptr → Job
  pub next : Ptr
  -- a nil resource was read, or a closed channel closed
  pub panicked : Bool
