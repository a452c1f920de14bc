-- ===== src/Transcription/Inside.antt =====
-- What the parts of transcriptions of internal/server/server.go do and answer.
use audio_server.Common.{
  append-nil, ℕ, ◌≡◌, refl, sym, subst, if_both, is_empty, Bool, true, false, Option, none, some,
  Option-cases, List, [], ◌∷◌, ◌++◌, ◌⊎◌, inl, inr, All, if◌then◌else◌, not, ◌||◌,
}
use audio_server.Wav.Parse.{parse}
use audio_server.Segment.Text.{Text}
use audio_server.Server.Text.{trim}
use audio_server.Server.Types.{
  Failure, AudioFormat, TranscriptionRequest, TranscriptionResult, SttProvider,
}
use audio_server.Server.Setup.{Server}
use audio_server.Server.Route.{status_of, stt_provider_for}
use audio_server.Server.Accepted.{IsErrorStatus, status_of-IsErrorStatus}
use audio_server.Transcription.Types.{
  Normalized, Gate, opens, opens_for_free, refuses, Env, Upload, Form, Effect, normalizes, acquires,
  releases, transcribes, records, Response, failure, plain_text, json_text, events, Run, fails,
}
use audio_server.Transcription.Prepare.{recordable, recorded, record_upload}
use audio_server.Transcription.Handle.{
  answer, deltas, last_events, stream_transcription, gated, gate_of, need,
}

-- What a provider's call may go with: the release function of its gate is held, or its gate opens
-- without one or is not set.
abbrev pub MayRun : Env → Option Text → Text → Type 0
MayRun env (some holder) id = holder ≡ id
MayRun env none id = (gate_of env id ≡ none) ⊎ (gate_of env id ≡ some opens_for_free)

-- A run from a state of the gate on, in which one or no release function is held: a gate is taken
-- only while none is held and only if it opens, only a held one is given back, providers are called
-- as their gates ask, and at the end none is held.
abbrev pub IsOrdered : Env → Option Text → List Effect → Type 0
IsOrdered env held [] = held ≡ none
IsOrdered env held (normalizes ∷ l) = IsOrdered env held l
IsOrdered env held (records audio text provider language ∷ l) = IsOrdered env held l
IsOrdered env held (transcribes id ∷ l) = MayRun env held id × IsOrdered env held l
IsOrdered env none (acquires id ∷ l) = (gate_of env id ≡ some opens) × IsOrdered env (some id) l
IsOrdered env (some holder) (acquires id ∷ l) = ⊥
IsOrdered env none (releases id ∷ l) = ⊥
IsOrdered env (some holder) (releases id ∷ l) = (holder ≡ id) × IsOrdered env none l

-- The effects of a call of the provider `id`, between the gate and the return.
abbrev pub Inner : Text → Effect → Type 0
Inner id normalizes = Unit
Inner id (records audio text provider language) = Unit
Inner id (transcribes j) = j ≡ id
Inner id (acquires j) = ⊥
Inner id (releases j) = ⊥

abbrev pub AllInner : Text → List Effect → Type 0
AllInner id = All (Inner id)

inner-IsOrdered :
    (env : Env) (held : Option Text) (id : Text) (l rest : List Effect)
    → MayRun env held id
    → AllInner id l
    → IsOrdered env held rest
    → IsOrdered env held (l ++ rest)
inner-IsOrdered env held id [] rest m i o = o
inner-IsOrdered env held id (normalizes ∷ l) rest m (_, i) o =
    inner-IsOrdered env held id l rest m i o
inner-IsOrdered env held id (records a t p g ∷ l) rest m (_, i) o =
    inner-IsOrdered env held id l rest m i o
inner-IsOrdered env held id (transcribes j ∷ l) rest m (e, i) o =
    (subst (MayRun env held) (sym e) m, inner-IsOrdered env held id l rest m i o)
inner-IsOrdered env held id (acquires j ∷ l) rest m (e, i) o = absurd e
inner-IsOrdered env held id (releases j ∷ l) rest m (e, i) o = absurd e

-- The audio for a provider: the upload, or what the normalizer made of it for its requirements.
abbrev pub IsPrepared : Env → SttProvider → List ℕ → List ℕ → Type 0
IsPrepared env p audio out =
    ((p.audio_requirements ≡ none) × (out ≡ audio))
    ⊎ ((format : AudioFormat) × (normalize : List ℕ → AudioFormat → Failure ⊎ Normalized)
        × (n : Normalized) × (p.audio_requirements ≡ some format)
        × (env.normalizer ≡ some normalize)
        × (normalize audio format ≡ inr n)
        × (out ≡ n.audio))

-- What the request to the provider comes from.
abbrev pub IsFor : Server → Env → Option Form → SttProvider → TranscriptionRequest → Type 0
IsFor s env form p req =
    (f : Form) × (upload : Upload) × (audio : List ℕ) × (form ≡ some f)
    × (f.file ≡ some upload)
    × (upload.content ≡ some audio)
    × (stt_provider_for s f.model ≡ some p)
    × IsPrepared env p audio req.audio
    × (req.language ≡ f.language)

abbrev pub Answered : Server → Env → Option Form → Response → Type 0
Answered s env form r =
    ((code : ℕ) × (r ≡ failure code) × IsErrorStatus code)
    ⊎ ((p : SttProvider) × (req : TranscriptionRequest) × (result : TranscriptionResult) × IsFor s
          env form p req
        × (p.transcribe req ≡ inr result)
        × ((r ≡ plain_text result.text) ⊎ (r ≡ json_text result.text)))
    ⊎ ((p : SttProvider) × (req : TranscriptionRequest) × (transcribe : TranscriptionRequest
          → List TranscriptionResult × (Failure ⊎ TranscriptionResult))
        × IsFor s env form p req
        × (p.transcribe_stream ≡ some transcribe)
        × (r ≡ events (deltas (transcribe req).0 ++ last_events (transcribe req).1)))

pub record IsServed (s : Server) (env : Env) (form : Option Form) (r : Run) : Type 0 where
  pub ordered : IsOrdered env none r.effects
  pub answered : Answered s env form r.response

pub need-cases :
    {A : Type 0} (P : Run → Type 0) (o : Option A) (k : A → Run)
    → P (fails 400)
    → ((a : A) → o ≡ some a → P (k a))
    → P (need o k)
unfolding need
need-cases P none k h g = h
need-cases P (some a) k h g = g a refl

pub fails-IsServed :
    (s : Server) (env : Env) (form : Option Form) (code : ℕ)
    → IsErrorStatus code
    → IsServed s env form (fails code)
fails-IsServed s env form code h = record { ordered = refl; answered = inl (code, refl, h) }

pub gated-IsServed :
    (s : Server) (env : Env) (form : Option Form) (g : Option Gate) (id : Text) (r : Run)
    → gate_of env id ≡ g
    → AllInner id r.effects
    → Answered s env form r.response
    → IsServed s env form (gated g id r)
unfolding gated
gated-IsServed s env form none id r q i a = record {
  ordered =
      subst (IsOrdered env none) (append-nil r.effects)
        (inner-IsOrdered env none id r.effects [] (inl q) i refl);
  answered = a;
}
gated-IsServed s env form (some opens) id r q i a = record {
  ordered = (q, inner-IsOrdered env (some id) id r.effects (releases id ∷ []) refl i (refl, refl));
  answered = a;
}
gated-IsServed s env form (some opens_for_free) id r q i a = record {
  ordered =
      subst (IsOrdered env none) (append-nil r.effects)
        (inner-IsOrdered env none id r.effects [] (inr q) i refl);
  answered = a;
}
gated-IsServed s env form (some refuses) id r q i a =
    fails-IsServed s env form 503 (inr (inr (inl refl)))

Sum-cases : {A B : Type 0} (r : A ⊎ B) → ((a : A) × (r ≡ inl a)) ⊎ ((b : B) × (r ≡ inr b))
Sum-cases (inl a) = inl (a, refl)
Sum-cases (inr b) = inr (b, refl)

recordable-AllInner :
    (env : Env) (id : Text) (audio : List ℕ) → AllInner id (recordable env audio).0
unfolding recordable
recordable-AllInner env id audio = elim (Sum-cases (parse audio)) [
  | inl (e, q) ↦ elim (Option-cases env.normalizer) [
    | inl o ↦ rw (recordable, q, o) tt
    | inr (n, o) ↦ rw (recordable, q, o) (tt, tt)
  ]
  | inr (a, q) ↦ rw (recordable, q) tt
]

append-AllInner :
    (id : Text) (l : List Effect) (e : Effect)
    → AllInner id l
    → Inner id e
    → AllInner id (l ++ e ∷ [])
append-AllInner id [] e i h = (h, tt)
append-AllInner id (d ∷ l) e (g, i) h = (g, append-AllInner id l e i h)

recorded-AllInner :
    (id : Text) (result : TranscriptionResult) (language : Text) (r : List Effect × Option (List ℕ))
    → AllInner id r.0
    → AllInner id (recorded result language r)
unfolding recorded
recorded-AllInner id result language (l, none) i = i
recorded-AllInner id result language (l, some a) i = append-AllInner id l _ i tt

record_upload-AllInner :
    (env : Env) (id : Text) (audio : List ℕ) (result : TranscriptionResult) (language : Text)
    → AllInner id (record_upload env audio result language)
unfolding record_upload
record_upload-AllInner env id audio result language =
    if_both (AllInner id) (not env.has_corpus || is_empty audio || is_empty (trim result.text)) []
      (recorded result language (recordable env audio)) tt
      (recorded-AllInner id result language (recordable env audio)
        (recordable-AllInner env id audio))

-- What a run answers before the gate is put around it.
pub record IsInside (s : Server) (env : Env) (form : Option Form) (id : Text) (r : Run)
    : Type 0 where
  pub inner : AllInner id r.effects
  pub inside : Answered s env form r.response

pub answer-IsInside :
    (s : Server) (env : Env) (form : Option Form) (text : Bool) (p : SttProvider)
    (req : TranscriptionRequest) (outcome : Failure ⊎ TranscriptionResult)
    → IsFor s env form p req
    → p.transcribe req ≡ outcome
    → IsInside s env form p.id (answer env text p req outcome)
unfolding answer
answer-IsInside s env form text p req (inl e) h q = record {
  inner = (refl, tt);
  inside = inl (status_of e, refl, status_of-IsErrorStatus e);
}
answer-IsInside s env form true p req (inr result) h q = record {
  inner = (refl, record_upload-AllInner env p.id req.audio result req.language);
  inside = inr (inl (p, req, result, h, q, inl refl));
}
answer-IsInside s env form false p req (inr result) h q = record {
  inner = (refl, record_upload-AllInner env p.id req.audio result req.language);
  inside = inr (inl (p, req, result, h, q, inr refl));
}

fails-IsInside :
    (s : Server) (env : Env) (form : Option Form) (id : Text) (code : ℕ)
    → IsErrorStatus code
    → IsInside s env form id (fails code)
fails-IsInside s env form id code h = record { inner = tt; inside = inl (code, refl, h) }

abbrev Transcriber : Type 0
Transcriber = TranscriptionRequest → List TranscriptionResult × (Failure ⊎ TranscriptionResult)

abbrev live : SttProvider → TranscriptionRequest → Transcriber → Run
live p req transcribe = record {
  effects = transcribes p.id ∷ [];
  response = events (deltas (transcribe req).0 ++ last_events (transcribe req).1);
}

streams :
    (env : Env) (p : SttProvider) (req : TranscriptionRequest) (transcribe : Transcriber)
    → p.transcribe_stream ≡ some transcribe
    → stream_transcription env p req ≡ (if env.flushes then live p req transcribe else fails 500)
unfolding stream_transcription
streams env p req transcribe q = rw (stream_transcription, q) refl

pub stream_transcription-IsInside :
    (s : Server) (env : Env) (form : Option Form) (p : SttProvider) (req : TranscriptionRequest)
    → IsFor s env form p req
    → IsInside s env form p.id (stream_transcription env p req)
unfolding stream_transcription
stream_transcription-IsInside s env form p req h = elim (Option-cases p.transcribe_stream) [
  | inl q ↦ rw (stream_transcription, q) (fails-IsInside s env form p.id 400 (inl refl))
  | inr (transcribe, q) ↦ subst (IsInside s env form p.id) (sym (streams env p req transcribe q)) (
      if_both (IsInside s env form p.id) env.flushes (live p req transcribe) (fails 500)
        (record { inner = (refl, tt); inside = inr (inr (p, req, transcribe, h, q, refl)) })
        (fails-IsInside s env form p.id 500 (inr (inl refl))))
]
