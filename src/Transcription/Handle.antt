-- ===== src/Transcription/Handle.antt =====
-- transcriptions and streamTranscription of internal/server/server.go. The connection takes all
-- that is written.
use audio_server.Common.{
  ℕ, ◌++◌, if◌then◌else◌, is_empty, Bool, Option, none, some, List, [], ◌∷◌, ◌⊎◌, inl, inr,
}
use audio_server.Segment.Text.{Text}
use audio_server.Server.Text.{Letters}
use audio_server.Server.Types.{Failure, TranscriptionRequest, TranscriptionResult, SttProvider}
use audio_server.Server.Setup.{Server}
use audio_server.Server.Route.{status_of, stt_provider_for}
use audio_server.Transcription.Types.{
  Gate, Effect, opens, opens_for_free, refuses, Env, Form, acquires, releases, transcribes, Event,
  delta, done, error_event, finished, failure, plain_text, json_text, events, Run, fails,
}
use audio_server.Transcription.Prepare.{wants_text, wants_stream, prepare, record_upload}

unfoldable pub answer :
    Env → Bool → SttProvider → TranscriptionRequest → Failure ⊎ TranscriptionResult → Run
unfolding record_upload
answer env text p req (inl e) = record {
  effects = transcribes p.id ∷ [];
  response = failure (status_of e);
}
answer env text p req (inr result) = record {
  effects = transcribes p.id ∷ record_upload env req.audio result req.language;
  response = if text then plain_text result.text else json_text result.text;
}

abbrev pub deltas : List TranscriptionResult → List Event
deltas [] = []
deltas (r ∷ rs) = delta r.text ∷ deltas rs

abbrev pub last_events : Failure ⊎ TranscriptionResult → List Event
last_events (inl e) = error_event ∷ []
last_events (inr result) = done result.text ∷ finished ∷ []

unfoldable pub stream_transcription : Env → SttProvider → TranscriptionRequest → Run
stream_transcription env p req = elim p.transcribe_stream [
  | none ↦ fails 400
  | some transcribe ↦
      if env.flushes
      then record {
        effects = transcribes p.id ∷ [];
        response = events (deltas (transcribe req).0 ++ last_events (transcribe req).1);
      }
      else fails 500
]

-- The gate before the rest of the handler, and its release, which is deferred to the return: `r` is
-- what the rest does until it returns.
unfoldable pub gated : Option Gate → Text → Run → Run
gated none id r = r
gated (some opens) id r =
    let deferred = releases id ∷ [] in record r { effects = acquires id ∷ r.effects ++ deferred }
gated (some opens_for_free) id r = r
gated (some refuses) id r = fails 503

abbrev pub gate_of : Env → Text → Option Gate
gate_of env id = elim env.gate [ none ↦ none | some g ↦ some (g id) ]

abbrev pub request_of : Form → List ℕ → Text → TranscriptionRequest
request_of f audio name = record {
  audio = audio;
  filename = name;
  language = f.language;
  model = f.model;
}

-- The call of the provider behind its gate, for the audio that was prepared.
unfoldable pub provided : Env → Form → Bool → Bool → SttProvider → Failure ⊎ (List ℕ × Text) → Run
unfolding gated stream_transcription answer
provided env f text stream p (inl e) = fails (status_of e)
provided env f text stream p (inr (audio, name)) =
    let req = request_of f audio name in
    gated (gate_of env p.id) p.id
      (if stream then stream_transcription env p req else answer env text p req (p.transcribe req))

-- The preparation comes before the gate.
unfoldable pub transcribed :
    Env → Form → Bool → Bool → SttProvider → List Effect × (Failure ⊎ (List ℕ × Text)) → Run
unfolding provided
transcribed env f text stream p (l, r) =
    let rest = provided env f text stream p r in record rest { effects = l ++ rest.effects }

unfoldable pub need : {A : Type 0} → Option A → (A → Run) → Run
need none k = fails 400
need (some a) k = k a

-- The form is `none` where it cannot be parsed.
unfoldable pub transcriptions : Letters → Server → Env → Option Form → Run
unfolding need wants_text wants_stream stt_provider_for prepare transcribed
transcriptions u s env form =
    if is_empty s.stt_providers
    then fails 503
    else need form λ f. need f.file λ upload. need upload.content λ audio.
      need (wants_text f.response_format) λ text. need (wants_stream u f.stream) λ stream.
        need (stt_provider_for s f.model)
          λ p. transcribed env f text stream p (prepare env p audio upload.filename)
