-- ===== src/Analysis/Types.antt =====
-- The data of internal/analysisjob/manager.go and internal/analysisprovider/analysisprovider.go.
-- Speaker ids are numbered in the order of their strings; sample positions and the times of segments
-- are int64, as in Int64; float64 is a parameter, with its 0, sum and quotient by a count.
use audio_server.Common.{ℕ, Bool, List}

pub record Floats : Type 1 where
  pub Float : Type 0
  pub zero : Float
  pub add : Float → Float → Float
  pub over : Float → ℕ → Float

pub record SpeakerTurn (F : Floats) : Type 0 where
  pub start_sample : ℕ
  pub end_sample : ℕ
  pub speaker_id : ℕ
  pub confidence : F.Float

pub record Segment (F : Floats) : Type 0 where
  pub start_ms : ℕ
  pub end_ms : ℕ
  pub speaker_ids : List ℕ
  pub confidence : F.Float
  pub overlap : Bool
  -- the transcript, in characters
  pub text : List ℕ

-- A speaker of the result, with an embedding if there is one.
pub record Speaker (F : Floats) : Type 0 where
  pub id : ℕ
  pub speech_ms : ℕ
  pub embedding_model : ℕ
  pub embedding : List F.Float

-- What a diarizer returns. `speaker_embeddings` is a map as a list of pairs.
pub record DiarizationResult (F : Floats) : Type 0 where
  pub provider_id : ℕ
  pub sample_rate : ℕ
  pub turns : List (SpeakerTurn F)
  pub speaker_embeddings : List (ℕ × List F.Float)
  pub embedding_model : ℕ

pub record EmbeddingResult (F : Floats) : Type 0 where
  pub provider_id : ℕ
  pub model : ℕ
  pub embedding : List F.Float
