-- ===== src/Transcription/Served.antt =====
-- What transcriptions of internal/server/server.go does and answers.
use audio_server.Common.{
  subst, sym, [], ◌∷◌, ◌++◌, ℕ, ◌≡◌, refl, if_both, is_empty, Bool, Option, none, some,
  Option-cases, List, ◌⊎◌, inl, inr, arith, if◌then◌else◌,
}
use audio_server.Segment.Text.{Text}
use audio_server.Server.Text.{Letters}
use audio_server.Server.Types.{Failure, SttProvider}
use audio_server.Server.Setup.{Server}
use audio_server.Server.Route.{status_of, stt_provider_for}
use audio_server.Server.Accepted.{status_of-IsErrorStatus}
use audio_server.Transcription.Types.{Normalized, Effect, normalizes, Env, Upload, Form, fails}
use audio_server.Transcription.Prepare.{wants_text, wants_stream, renamed, with_name, prepare}
use audio_server.Transcription.Handle.{
  answer, stream_transcription, gate_of, request_of, provided, transcribed, need, transcriptions,
}
use audio_server.Transcription.Inside.{
  IsOrdered, IsPrepared, IsFor, IsServed, need-cases, fails-IsServed, gated-IsServed, IsInside,
  answer-IsInside, stream_transcription-IsInside,
}

with_name-audio :
    (name : Text) (r : Failure ⊎ Normalized) (out : List ℕ × Text)
    → with_name name r ≡ inr out
    → (n : Normalized) × (r ≡ inr n) × (out.0 ≡ n.audio)
unfolding with_name renamed
with_name-audio name (inl e) out h = ground (arith, h)
with_name-audio name (inr n) out h = (n, refl, ground (arith, h))

prepare-IsPrepared :
    (env : Env) (p : SttProvider) (audio : List ℕ) (name : Text) (out : List ℕ × Text)
    → (prepare env p audio name).1 ≡ inr out
    → IsPrepared env p audio out.0
unfolding prepare
prepare-IsPrepared env p audio name out h = elim (Option-cases p.audio_requirements) [
  | inl q ↦ inl (q, ground (arith, h, q))
  | inr (format, q) ↦ elim (Option-cases env.normalizer) [
    | inl o ↦ ground (arith, h, q, o)
    | inr (normalize, o) ↦
        let (n, made, same) =
          with_name-audio name (normalize audio format) out (ground (arith, h, q, o)) in
        inr (format, normalize, n, q, o, made, same)
  ]
]

-- The preparation leaves the gate as it is.
prepare-effects :
    (env : Env) (p : SttProvider) (audio : List ℕ) (name : Text)
    → ((prepare env p audio name).0 ≡ []) ⊎ ((prepare env p audio name).0 ≡ normalizes ∷ [])
unfolding prepare
prepare-effects env p audio name = elim (Option-cases p.audio_requirements) [
  | inl q ↦ inl (ground (arith, q))
  | inr (format, q) ↦ elim (Option-cases env.normalizer) [
    | inl o ↦ inl (ground (arith, q, o))
    | inr (normalize, o) ↦ inr (ground (arith, q, o))
  ]
]

prepare-IsOrdered :
    (env : Env) (l rest : List Effect)
    → (l ≡ []) ⊎ (l ≡ normalizes ∷ [])
    → IsOrdered env none rest
    → IsOrdered env none (l ++ rest)
prepare-IsOrdered env l rest (inl q) o = subst (λ l. IsOrdered env none (l ++ rest)) (sym q) o
prepare-IsOrdered env l rest (inr q) o = subst (λ l. IsOrdered env none (l ++ rest)) (sym q) o

provided-IsServed :
    (s : Server) (env : Env) (f : Form) (upload : Upload) (audio : List ℕ) (text stream : Bool)
    (p : SttProvider) (r : Failure ⊎ (List ℕ × Text))
    → f.file ≡ some upload
    → upload.content ≡ some audio
    → stt_provider_for s f.model ≡ some p
    → (prepare env p audio upload.filename).1 ≡ r
    → IsServed s env (some f) (provided env f text stream p r)
unfolding provided
provided-IsServed s env f upload audio text stream p (inl e) file content found made =
    fails-IsServed s env (some f) (status_of e) (status_of-IsErrorStatus e)
provided-IsServed s env f upload audio text stream p (inr (sent, name)) file content found made =
    let req = request_of f sent name in
    let asked : IsFor s env (some f) p (request_of f sent name) = (
      f,
      upload,
      audio,
      refl,
      file,
      content,
      found,
      prepare-IsPrepared env p audio upload.filename (sent, name) made,
      refl,
    ) in
    let run =
      if stream then stream_transcription env p req else answer env text p req (p.transcribe req) in
    let inside =
      if_both (IsInside s env (some f) p.id) stream (stream_transcription env p req)
        (answer env text p req (p.transcribe req))
        (stream_transcription-IsInside s env (some f) p req asked)
        (answer-IsInside s env (some f) text p req (p.transcribe req) asked refl) in
    gated-IsServed s env (some f) (gate_of env p.id) p.id run refl inside.inner inside.inside

transcribed-IsServed :
    (s : Server) (env : Env) (f : Form) (upload : Upload) (audio : List ℕ) (text stream : Bool)
    (p : SttProvider)
    → f.file ≡ some upload
    → upload.content ≡ some audio
    → stt_provider_for s f.model ≡ some p
    → IsServed s env
        (some f)
        (transcribed env f text stream p (prepare env p audio upload.filename))
unfolding transcribed
transcribed-IsServed s env f upload audio text stream p file content found =
    let (l, r) = prepare env p audio upload.filename in
    let rest = provided-IsServed s env f upload audio text stream p r file content found refl in
    record {
      ordered =
          prepare-IsOrdered env l (provided env f text stream p r).effects
            (prepare-effects env p audio upload.filename) rest.ordered;
      answered = rest.answered;
    }

-- Whatever is configured, in the course of a transcription request the run gate is taken only while
-- it is not held and only if it opens, it is given back before the return, and the provider is
-- called only while its gate is held, or if its gate needs no release or none is set; so that it is
-- not called if the gate refuses. The request is answered with an error status, or with the text
-- or the partial texts and the end that the provider of the asked model gave for the uploaded
-- audio, or for what the normalizer made of it where the provider has requirements.
pub transcriptions-IsServed :
    (u : Letters) (s : Server) (env : Env) (form : Option Form)
    → IsServed s env form (transcriptions u s env form)
unfolding transcriptions need
transcriptions-IsServed u s env none =
    if_both (IsServed s env none) (is_empty s.stt_providers) (fails 503) (fails 400)
      (fails-IsServed s env none 503 (inr (inr (inl refl))))
      (fails-IsServed s env none 400 (inl refl))
transcriptions-IsServed u s env (some f) =
    let P = IsServed s env (some f) in
    let bad = fails-IsServed s env (some f) 400 (inl refl) in
    if_both P (is_empty s.stt_providers) _ _
      (fails-IsServed s env (some f) 503 (inr (inr (inl refl))))
      (need-cases P f.file _ bad λ upload file. need-cases P upload.content _ bad λ audio content.
        need-cases P (wants_text f.response_format) _ bad λ text _.
          need-cases P (wants_stream u f.stream) _ bad λ stream _.
            need-cases P (stt_provider_for s f.model) _ bad
              λ p found. transcribed-IsServed s env f upload audio text stream p file content found)
