-- ===== src/Analysis/Serial.antt =====
-- The gates that a run of internal/analysisjob/manager.go takes.
use audio_server.Common.{
  ℕ, suc, ◌≡◌, refl, ◌&&◌, not, if_both, ltb, ◌/◌, ◌*◌, length, is_empty, Option, none, some, ◌⊎◌,
  inl, inr, List, [], ◌∷◌, ◌++◌,
}
use audio_server.Wav.Parse.{Audio, parse}
use audio_server.Analysis.Types.{Floats, Segment, Speaker, DiarizationResult}
use audio_server.Analysis.Merge.{merge_turns}
use audio_server.Analysis.Samples.{collect_speaker_samples}
use audio_server.Analysis.Effects.{
  Error, GateEvent, takes, gives, Run, ok, fail, need, ◌>>=◌, Gate, opens, opens_for_free, refuses,
  within_gate, within_function, acquiring, release_after, deferred_after,
}
use audio_server.Analysis.Jobs.{Request, Result, Manager}
use audio_server.Analysis.Transcribe.{
  Transcriber, transcribe_one, transcribe_from, transcribe_segments,
}
use audio_server.Analysis.Analyze.{
  Env, vocals_of, vocals_audio, prepare, speaker_of, speakers_of, speaker_keys, transcribed, report,
  parsed, with_rate, analyze,
}

-- Each gate is given back before the next one is taken, and the last one too.
abbrev pub IsSerial : List GateEvent → Type 0
IsSerial [] = Unit
IsSerial (gives a ∷ l) = ⊥
IsSerial (takes a ∷ []) = ⊥
IsSerial (takes a ∷ takes b ∷ l) = ⊥
IsSerial (takes a ∷ gives b ∷ l) = (a ≡ b) × IsSerial l

append-IsSerial : (l k : List GateEvent) → IsSerial l → IsSerial k → IsSerial (l ++ k)
append-IsSerial [] k s t = t
append-IsSerial (gives a ∷ l) k s t = absurd s
append-IsSerial (takes a ∷ []) k s t = absurd s
append-IsSerial (takes a ∷ takes b ∷ l) k s t = absurd s
append-IsSerial (takes a ∷ gives b ∷ l) k (e, s) t = (e, append-IsSerial l k s t)

module _ {A B : Type 0} where
  then-IsSerial :
      (r : Run A) (k : A → Run B)
      → IsSerial r.0
      → ((a : A) → IsSerial (k a).0)
      → IsSerial (r >>= k).0
  then-IsSerial (l, inl e) k s t = s
  then-IsSerial (l, inr a) k s t = append-IsSerial l (k a).0 s (t a)

module _ {A : Type 0} where
  need-IsSerial : (e : Error) (o : Option A) → IsSerial (need e o).0
  need-IsSerial e none = tt
  need-IsSerial e (some a) = tt

  -- A call that takes no gate itself.
  gate-IsSerial : (g : Gate) (id : ℕ) (r : Run A) → r.0 ≡ [] → IsSerial (within_gate g id r).0
  unfolding within_gate acquiring release_after
  gate-IsSerial opens id (l, inl x) e = rw e (refl, tt)
  gate-IsSerial opens id (l, inr a) e = rw e (refl, tt)
  gate-IsSerial opens_for_free id (l, inl x) e = rw e tt
  gate-IsSerial opens_for_free id (l, inr a) e = rw e tt
  gate-IsSerial refuses id r e = tt

  function-IsSerial :
      (g : Gate) (id : ℕ) (r : Run A) → r.0 ≡ [] → IsSerial (within_function g id r).0
  unfolding within_function acquiring deferred_after
  function-IsSerial opens id (l, r) e = rw e (refl, tt)
  function-IsSerial opens_for_free id (l, r) e = rw e tt
  function-IsSerial refuses id r e = tt

  needs_no_gate : (e : Error) (o : Option A) → (need e o).0 ≡ []
  needs_no_gate e none = refl
  needs_no_gate e (some a) = refl

then_no_gate :
    {A B : Type 0} (r : Run A) (k : A → Run B)
    → r.0 ≡ []
    → ((a : A) → (k a).0 ≡ [])
    → (r >>= k).0 ≡ []
then_no_gate (l, inl e) k s t = s
then_no_gate (l, inr a) k s t = rw (s, t a) refl

parsed-IsSerial : {E : Type 0} (r : E ⊎ Audio) → IsSerial (parsed r).0
parsed-IsSerial (inl e) = tt
parsed-IsSerial (inr audio) = tt

module _ {F : Floats} where
  transcribe_one-no_gate :
      (call : Transcriber) (i : ℕ) (audio : Audio) (s : Segment F)
      → (transcribe_one call i audio s).0 ≡ []
  unfolding transcribe_one
  transcribe_one-no_gate call i audio s =
      if_both (λ (r : Run (Segment F)). r.0 ≡ []) _ (ok s) _ refl
        (then_no_gate (need _ _) _ (needs_no_gate _ _) (λ wav.
          then_no_gate (need _ (call i wav)) _ (needs_no_gate _ (call i wav)) (λ text. refl)))

  transcribe_from-no_gate :
      (call : Transcriber) (i : ℕ) (audio : Audio) (ss : List (Segment F))
      → (transcribe_from call i audio ss).0 ≡ []
  unfolding transcribe_from
  transcribe_from-no_gate call i audio [] = refl
  transcribe_from-no_gate call i audio (s ∷ ss) =
      then_no_gate (transcribe_one call i audio s) _ (transcribe_one-no_gate call i audio s) (λ s'.
        then_no_gate (transcribe_from call (suc i) audio ss) _
          (transcribe_from-no_gate call (suc i) audio ss) (λ ss'. refl))

  transcribed-IsSerial :
      (env : Env F) (m : Manager F) (req : Request) (audio : Audio) (ss : List (Segment F))
      → IsSerial (transcribed env m req audio ss).0
  unfolding transcribed transcribe_segments
  transcribed-IsSerial env m req audio ss = if_both Serial (not req.transcribe) (ok (ss, 0)) _ tt (
      then-IsSerial (need _ _) _ (need-IsSerial _ _) (λ id.
        then-IsSerial (within_function (env.gate id) id (transcribe_from env.transcribe 0 audio ss))
          _
          (function-IsSerial (env.gate id) id (transcribe_from env.transcribe 0 audio ss)
            (transcribe_from-no_gate env.transcribe 0 audio ss))
          (λ texts. tt)))
    where
      Serial : Run (List (Segment F) × ℕ) → Type 0
      Serial r = IsSerial r.0

  speaker_of-IsSerial :
      (env : Env F) (m : Manager F) (req : Request) (audio : Audio) (diar : DiarizationResult F)
      (id : ℕ) (samples : List ℕ) (last : ℕ)
      → IsSerial (speaker_of env m req audio diar id samples last).0
  unfolding speaker_of
  speaker_of-IsSerial env m req audio diar id samples last =
      if_both Serial (not req.include_speaker_embeddings) _ _ tt (
        if_both Serial (not (is_empty diar.speaker_embeddings)) _ _ tt (
          if_both Serial (m.has_embedder && not (ltb (length samples) (audio.sample_rate / 4))) _
            (ok _)
            (then-IsSerial (need _ _) _ (need-IsSerial _ _) (λ wav.
              then-IsSerial (need _ (env.embed id wav)) _ (need-IsSerial _ (env.embed id wav))
                (λ emb. tt)))
            tt))
    where
      Serial : Run (Speaker F × ℕ) → Type 0
      Serial r = IsSerial r.0

  speakers_of-IsSerial :
      (env : Env F) (m : Manager F) (req : Request) (audio : Audio) (diar : DiarizationResult F)
      (taken : ℕ → List ℕ) (ids : List ℕ) (last : ℕ)
      → IsSerial (speakers_of env m req audio diar taken ids last).0
  unfolding speakers_of
  speakers_of-IsSerial env m req audio diar taken [] last = tt
  speakers_of-IsSerial env m req audio diar taken (id ∷ ids) last =
      then-IsSerial (speaker_of env m req audio diar id (taken id) last) _
        (speaker_of-IsSerial env m req audio diar id (taken id) last)
        (λ one.
          then-IsSerial (speakers_of env m req audio diar taken ids one.1) _
            (speakers_of-IsSerial env m req audio diar taken ids one.1) (λ rest. tt))

  report-IsSerial :
      (env : Env F) (m : Manager F) (req : Request) (audio : Audio) (separator : ℕ)
      (diar : DiarizationResult F)
      → IsSerial (report env m req audio separator diar).0
  unfolding report
  report-IsSerial env m req audio separator diar =
      then-IsSerial (transcribed env m req audio (merge_turns diar.turns diar.sample_rate)) _
        (transcribed-IsSerial env m req audio (merge_turns diar.turns diar.sample_rate))
        (λ texts.
          then-IsSerial (speakers_of env m req audio diar taken keys 0) _
            (speakers_of-IsSerial env m req audio diar taken keys 0) (λ speakers. tt))
    where
      taken : ℕ → List ℕ
      taken = collect_speaker_samples audio.samples diar.turns (30 * audio.sample_rate)

      keys : List ℕ
      keys = speaker_keys taken diar.turns

  vocals-IsSerial : (env : Env F) (vocals : List ℕ) → IsSerial (vocals_audio env vocals).0
  unfolding vocals_audio
  vocals-IsSerial env vocals =
      if_both (λ (r : Run (List ℕ)). IsSerial r.0) (is_empty vocals) (fail _) (need _ _) tt
        (need-IsSerial _ (env.normalize vocals))

  prepare-IsSerial : (env : Env F) (m : Manager F) (req : Request) → IsSerial (prepare env m req).0
  unfolding prepare
  prepare-IsSerial env m req =
      if_both (λ (r : Run (List ℕ × ℕ)). IsSerial r.0) (not req.separate_dialogue) _ _
        (then-IsSerial (need _ _) _ (need-IsSerial _ (env.normalize req.audio)) (λ audio. tt))
        (then-IsSerial (need _ _) _ (need-IsSerial _ _) (λ id.
          then-IsSerial (need _ _) _ (need-IsSerial _ (env.normalize_stereo req.audio)) (λ input.
            then-IsSerial (within_gate (env.gate id) id (need _ (env.separate input))) _
              (gate-IsSerial (env.gate id) id (need _ _) (needs_no_gate _ (env.separate input)))
              (λ separated.
                then-IsSerial (vocals_audio env (vocals_of env.is_vocal separated.1)) _
                  (vocals-IsSerial env (vocals_of env.is_vocal separated.1)) (λ audio. tt)))))

  -- Whatever the calls out answer, a run of analyze gives each gate that it takes back before it
  -- takes the next, and the last one before it returns, with a result or an error.
  pub analyze-IsSerial :
      (env : Env F) (m : Manager F) (req : Request) → IsSerial (analyze env m req).0
  unfolding analyze
  analyze-IsSerial env m req =
      if_both (λ (r : Run (Result F)). IsSerial r.0) (not m.has_normalizer) (fail _) _ tt
        (then-IsSerial (prepare env m req) _ (prepare-IsSerial env m req) (λ p.
          then-IsSerial (parsed (parse p.0)) _ (parsed-IsSerial (parse p.0)) (λ audio.
            then-IsSerial (need _ _) _ (need-IsSerial _ _) (λ id.
              then-IsSerial (within_gate (env.gate id) id (need _ (env.diarize p.0))) _
                (gate-IsSerial (env.gate id) id (need _ _) (needs_no_gate _ (env.diarize p.0)))
                (λ diar. report-IsSerial env m req audio p.1 (with_rate audio diar))))))
