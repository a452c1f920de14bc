-- ===== src/Analysis/Jobs.antt =====
-- Submit, Get and the start and end of run of internal/analysisjob/manager.go. Model names are
-- numbered, with 0 the empty one; a map from models to providers lists each model with the ID that
-- its provider reports.
use audio_server.Common.{
  ℕ, ◌==◌, ◌&&◌, ◌||◌, not, if◌then◌else◌, is_empty, is_some, map, Bool, Option, none, some, ◌⊎◌,
  inl, inr, List, [], ◌∷◌, update,
}
use audio_server.Analysis.Types.{Floats, SpeakerTurn, Segment, Speaker}
use audio_server.Analysis.Merge.{sort}
use audio_server.Analysis.Effects.{Error, not_configured, no_audio, unknown_model, no_id, not_found}

pub data Status : Type 0 where
  queued running succeeded failed : Status

abbrev auto : ℕ
auto = 1

abbrev whisper_1 : ℕ
whisper_1 = 2

pub record Request : Type 0 where
  pub audio : List ℕ
  pub include_speaker_embeddings : Bool
  pub transcribe : Bool
  pub transcription_model : ℕ
  pub diarization_model : ℕ
  pub language : ℕ
  pub separate_dialogue : Bool
  pub separation_model : ℕ

pub record Result (F : Floats) : Type 0 where
  pub duration_ms : ℕ
  pub sample_rate : ℕ
  pub diarizer : ℕ
  pub embedder : ℕ
  pub transcriber : ℕ
  pub separator : ℕ
  pub speakers : List (Speaker F)
  pub segments : List (Segment F)
  pub raw_turns : List (SpeakerTurn F)

pub record Job (F : Floats) : Type 0 where
  pub status : Status
  pub result : Option (Result F)
  pub error : Option Error

abbrev pub Providers : Type 0
Providers = List (ℕ × ℕ)

pub record Manager (F : Floats) : Type 0 where
  pub jobs : ℕ → Option (Job F)
  pub diarizers : Providers
  pub default_diarizer : ℕ
  pub has_embedder : Bool
  pub separators : Providers
  pub default_separator : ℕ
  pub has_normalizer : Bool
  pub transcribers : Providers
  pub default_transcriber : ℕ

-- The ID of a model's provider.
unfoldable pub find : ℕ → Providers → Option ℕ
find model [] = none
find model ((key, id) ∷ providers) = if key == model then some id else find model providers

-- DiarizerIDs and SeparatorIDs, and DiarizerID and SeparatorID.
unfoldable pub model_ids : Providers → List ℕ
unfolding sort
model_ids providers = sort (map (λ p. p.0) providers)

abbrev pub default_id : Providers → ℕ → ℕ
default_id providers model = elim (find model providers) [ none ↦ 0 | some id ↦ id ]

-- The names that stand for a default.
abbrev pub is_auto : ℕ → Bool
is_auto model = (model == 0) || (model == auto)

abbrev pub is_default_transcriber : ℕ → Bool
is_default_transcriber model = is_auto model || (model == whisper_1)

module _ {F : Floats} where
  abbrev pub enabled : Manager F → Bool
  enabled m = not (is_empty m.diarizers)

  abbrev pub resolve_transcription : Manager F → Request → Request
  resolve_transcription m req =
      if req.transcribe
      then record req {
        transcription_model =
            if is_default_transcriber req.transcription_model
            then m.default_transcriber
            else req.transcription_model;
      }
      else req

  abbrev pub resolve_diarization : Manager F → Request → Request
  resolve_diarization m req = record req {
    diarization_model =
        if is_auto req.diarization_model then m.default_diarizer else req.diarization_model;
  }

  abbrev pub resolve_separation : Manager F → Request → Request
  resolve_separation m req =
      if req.separate_dialogue
      then record req {
        separation_model =
            if is_auto req.separation_model then m.default_separator else req.separation_model;
      }
      else req

  -- The request with its models named.
  abbrev pub resolve : Manager F → Request → Request
  resolve m req = resolve_separation m (resolve_diarization m (resolve_transcription m req))

  abbrev pub knows_models : Manager F → Request → Bool
  knows_models m req =
      (not req.transcribe || is_some (find req.transcription_model m.transcribers))
      && is_some (find req.diarization_model m.diarizers)
      && (not req.separate_dialogue || is_some (find req.separation_model m.separators))

  abbrev pub queued_job : Job F
  queued_job = record { status = queued; result = none; error = none }

  unfoldable pub add_job : Request → Manager F → Option ℕ → (Error ⊎ (ℕ × Request)) × Manager F
  add_job req m none = (inl no_id, m)
  add_job req m (some id) = (inr (id, req), record m { jobs = update m.jobs id (some queued_job) })

  -- The id of the job and the request that its goroutine runs. `id` is what newID makes.
  unfoldable pub submit : Option ℕ → Request → Manager F → (Error ⊎ (ℕ × Request)) × Manager F
  unfolding find add_job
  submit id req m =
      if not (enabled m)
      then (inl not_configured, m)
      else if is_empty req.audio
      then (inl no_audio, m)
      else if not (knows_models m (resolve m req))
      then (inl unknown_model, m)
      else add_job (resolve m req) m id

  abbrev pub found : Option (Job F) → Error ⊎ Job F
  found none = inl not_found
  found (some job) = inr job

  unfoldable pub get : ℕ → Manager F → Error ⊎ Job F
  get id m = found (m.jobs id)

  abbrev pub change_job : (Job F → Job F) → Option (Job F) → Option (Job F)
  change_job f none = none
  change_job f (some job) = some (f job)

  abbrev pub started : Job F → Job F
  started job = record job { status = running }

  abbrev pub ended : Error ⊎ Result F → Job F → Job F
  ended (inl e) job = record { status = failed; result = none; error = some e }
  ended (inr r) job = record { status = succeeded; result = some r; error = none }

  unfoldable pub begin : ℕ → Manager F → Manager F
  begin id m = record m { jobs = update m.jobs id (change_job started (m.jobs id)) }

  unfoldable pub conclude : ℕ → Error ⊎ Result F → Manager F → Manager F
  conclude id r m = record m { jobs = update m.jobs id (change_job (ended r) (m.jobs id)) }
