-- ===== src/Transcription/Types.antt =====
-- What transcriptions of internal/server/server.go reads, does and answers. The form is the one that
-- package mime/multipart has parsed.
use audio_server.Common.{ℕ, Bool, Option, List, [], ◌⊎◌}
use audio_server.Segment.Text.{Text}
use audio_server.Server.Types.{Failure, AudioFormat}

pub record Normalized : Type 0 where
  pub audio : List ℕ
  pub converted : Bool

-- What the run gate answers: a release function, none and no error, or an error.
pub data Gate : Type 0 where
  opens opens_for_free refuses : Gate

-- The parts of the server that are configured or not: the normalizer, the run gate and the corpus.
pub record Env : Type 0 where
  pub normalizer : Option (List ℕ → AudioFormat → Failure ⊎ Normalized)
  pub gate : Option (Text → Gate)
  pub has_corpus : Bool
  pub flushes : Bool

-- The form: its file, with `none` where it cannot be read, and its values.
pub record Upload : Type 0 where
  pub filename : Text
  pub content : Option (List ℕ)

pub record Form : Type 0 where
  pub file : Option Upload
  pub model : Text
  pub language : Text
  pub response_format : Text
  pub stream : Text

-- What a request makes the server do, in order.
pub data Effect : Type 0 where
  normalizes : Effect
  acquires releases transcribes : Text → Effect
  records : List ℕ → Text → Text → Text → Effect

pub data Event : Type 0 where
  delta done : Text → Event
  error_event finished : Event

pub data Response : Type 0 where
  failure : ℕ → Response
  plain_text json_text : Text → Response
  events : List Event → Response

pub record Run : Type 0 where
  pub effects : List Effect
  pub response : Response

abbrev pub fails : ℕ → Run
fails status = record { effects = []; response = failure status }
