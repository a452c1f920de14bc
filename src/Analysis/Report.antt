-- ===== src/Analysis/Report.antt =====
-- What analyze of internal/analysisjob/manager.go reports when it succeeds.
use audio_server.Common.{
  ℕ, suc, ◌*◌, ◌/◌, ◌≤◌, ◌≡◌, refl, sym, subst, ◌&&◌, not, ltb, if_both, is_empty, Option, none,
  some, inr, arith, List, [], ◌∷◌, map, length, All,
}
use native.Mathlib.Nat.{div-le_of_le-mul}
use audio_server.Wav.Parse.{Audio, parse}
use audio_server.Analysis.Types.{Floats, Segment, Speaker, DiarizationResult}
use audio_server.Analysis.Merge.{sort, merge_turns}
use audio_server.Analysis.Samples.{collect_speaker_samples}
use audio_server.Analysis.Timeline.{
  IsAscending, IsSegment, IsTimeline, IsBounded, sort-Rises, unique-IsAscending,
  merge_turns-IsTimeline,
}
use audio_server.Analysis.Share.{collect_speaker_samples-length}
use audio_server.Analysis.Effects.{
  within_function, diarize_failed, no_normalizer, ok, fail, need, within_gate,
}
use audio_server.Analysis.Ensures.{
  Ensures, ok-Ensures, within_gate-Ensures, within_function-Ensures, need-Ensures, outcome-Ensures,
  then-Ensures, then-Ensures_any,
}
use audio_server.Analysis.Jobs.{Request, Result, Manager}
use audio_server.Analysis.Transcribe.{
  Transcriber, transcribe_one, transcribe_from, transcribe_segments,
}
use audio_server.Analysis.Analyze.{
  Env, prepare, diarized_embedding, embedding_of, plain_speaker, spoken_ids, speaker_keys,
  speaker_of, speakers_of, transcribed, report, parsed, with_rate, analyze,
}

module _ {F : Floats} where
  -- The same segments up to their texts.
  abbrev Retexts : List (Segment F) → List (Segment F) → Type 0
  Retexts [] [] = Unit
  Retexts [] (t ∷ ts) = ⊥
  Retexts (s ∷ ss) [] = ⊥
  Retexts (s ∷ ss) (t ∷ ts) = (t ≡ record s { text = t.text }) × Retexts ss ts

  transcribe_one-Retexts :
      (call : Transcriber) (i : ℕ) (audio : Audio) (s : Segment F)
      → Ensures (λ t. t ≡ record s { text = t.text }) (transcribe_one call i audio s)
  unfolding transcribe_one
  transcribe_one-Retexts call i audio s =
      if_both (Ensures Same) _ (ok s) _ (ok-Ensures Same s refl) (
        then-Ensures_any Same (need _ _) _ (λ wav.
          then-Ensures_any Same (need _ (call i wav)) _
            (λ text. ok-Ensures Same (record s { text = text }) refl)))
    where
      Same : Segment F → Type 0
      Same t = t ≡ record s { text = t.text }

  transcribe_from-Retexts :
      (call : Transcriber) (i : ℕ) (audio : Audio) (ss : List (Segment F))
      → Ensures (Retexts ss) (transcribe_from call i audio ss)
  unfolding transcribe_from
  transcribe_from-Retexts call i audio [] = ok-Ensures (Retexts []) [] tt
  transcribe_from-Retexts call i audio (s ∷ ss) =
      then-Ensures (λ t. t ≡ record s { text = t.text }) (Retexts (s ∷ ss))
        (transcribe_one call i audio s) _ (transcribe_one-Retexts call i audio s)
        (λ t e.
          then-Ensures (Retexts ss) (Retexts (s ∷ ss)) (transcribe_from call (suc i) audio ss) _
            (transcribe_from-Retexts call (suc i) audio ss)
            (λ ts h. ok-Ensures (Retexts (s ∷ ss)) (t ∷ ts) (e, h)))

  Retexts-refl : (ss : List (Segment F)) → Retexts ss ss
  Retexts-refl [] = tt
  Retexts-refl (s ∷ ss) = (refl, Retexts-refl ss)

  retext-IsSegment :
      (s : Segment F) (text : List ℕ) → IsSegment s → IsSegment (record s { text = text })
  retext-IsSegment s text ok = record {
    ascending = ok.ascending;
    spoken = ok.spoken;
    overlaps = ok.overlaps;
    forward = ok.forward;
  }

  Retexts-IsTimeline :
      (m : ℕ) (ss ts : List (Segment F)) → Retexts ss ts → IsTimeline m ss → IsTimeline m ts
  Retexts-IsTimeline m [] [] h t = tt
  Retexts-IsTimeline m [] (t ∷ ts) h l = absurd h
  Retexts-IsTimeline m (s ∷ ss) [] h l = absurd h
  Retexts-IsTimeline m (s ∷ ss) (t ∷ ts) (e, h) (le, ok, l) = (
    subst (λ x. m ≤ x.start_ms) (sym e) le,
    subst IsSegment (sym e) (retext-IsSegment s t.text ok),
    subst (λ x. IsTimeline x.end_ms ts) (sym e) (Retexts-IsTimeline s.end_ms ss ts h l),
  )

  transcribed-Retexts :
      (env : Env F) (m : Manager F) (req : Request) (audio : Audio) (ss : List (Segment F))
      → Ensures (λ r. Retexts ss r.0) (transcribed env m req audio ss)
  unfolding transcribed transcribe_segments
  transcribed-Retexts env m req audio ss =
      if_both (Ensures Good) (not req.transcribe) (ok (ss, 0)) _
        (ok-Ensures Good (ss, 0) (Retexts-refl ss))
        (then-Ensures_any Good (need _ _) _ (λ id.
          then-Ensures (Retexts ss) Good
            (within_function (env.gate id) id (transcribe_from env.transcribe 0 audio ss)) _
            (within_function-Ensures (Retexts ss) (env.gate id) id
              (transcribe_from env.transcribe 0 audio ss)
              (transcribe_from-Retexts env.transcribe 0 audio ss))
            (λ texts h. ok-Ensures Good (texts, id) h)))
    where
      Good : List (Segment F) × ℕ → Type 0
      Good r = Retexts ss r.0

  -- A speaker of an id, with the time of its samples.
  abbrev IsSpeaker : ℕ → ℕ → Speaker F × ℕ → Type 0
  IsSpeaker id speech_ms r = (r.0.id ≡ id) × (r.0.speech_ms ≡ speech_ms)

  diarized-IsSpeaker :
      (diar : DiarizationResult F) (s : Speaker F) (last : ℕ) (o : Option (List F.Float))
      → IsSpeaker s.id s.speech_ms (diarized_embedding diar s last o)
  diarized-IsSpeaker diar s last none = (refl, refl)
  diarized-IsSpeaker diar s last (some e) = (refl, refl)

  speaker_of-IsSpeaker :
      (env : Env F) (m : Manager F) (req : Request) (audio : Audio) (diar : DiarizationResult F)
      (id : ℕ) (samples : List ℕ) (last : ℕ)
      → Ensures
          (IsSpeaker id (length samples * 1000 / audio.sample_rate))
          (speaker_of env m req audio diar id samples last)
  unfolding speaker_of
  speaker_of-IsSpeaker env m req audio diar id samples last =
      if_both (Ensures Good) (not req.include_speaker_embeddings) _ _
        (ok-Ensures Good (s, last) (refl, refl))
        (if_both (Ensures Good) (not (is_empty diar.speaker_embeddings)) _ _
          (ok-Ensures Good
            (diarized_embedding diar s last (embedding_of id diar.speaker_embeddings))
            (diarized-IsSpeaker diar s last (embedding_of id diar.speaker_embeddings)))
          (if_both (Ensures Good)
            (m.has_embedder && not (ltb (length samples) (audio.sample_rate / 4))) _ _
            (then-Ensures_any Good (need _ _) _ (λ wav.
              then-Ensures_any Good (need _ (env.embed id wav)) _ (λ emb.
                ok-Ensures Good
                  (
                    record s { embedding_model = emb.model; embedding = emb.embedding },
                    emb.provider_id,
                  )
                  (refl, refl))))
            (ok-Ensures Good (s, last) (refl, refl))))
    where
      s : Speaker F
      s = plain_speaker id (length samples * 1000 / audio.sample_rate)

      Good : Speaker F × ℕ → Type 0
      Good = IsSpeaker id (length samples * 1000 / audio.sample_rate)

  -- The speakers of ids, each with the time of its samples.
  abbrev AreSpeakers : (ℕ → ℕ) → List ℕ → List (Speaker F) → Type 0
  AreSpeakers ms [] [] = Unit
  AreSpeakers ms [] (s ∷ ss) = ⊥
  AreSpeakers ms (id ∷ ids) [] = ⊥
  AreSpeakers ms (id ∷ ids) (s ∷ ss) = (s.id ≡ id) × (s.speech_ms ≡ ms id) × AreSpeakers ms ids ss

  speakers_of-AreSpeakers :
      (env : Env F) (m : Manager F) (req : Request) (audio : Audio) (diar : DiarizationResult F)
      (taken : ℕ → List ℕ) (ids : List ℕ) (last : ℕ)
      → Ensures
          (λ r. AreSpeakers (λ id. length (taken id) * 1000 / audio.sample_rate) ids r.0)
          (speakers_of env m req audio diar taken ids last)
  unfolding speakers_of
  speakers_of-AreSpeakers env m req audio diar taken [] last = ok-Ensures _ ([], last) tt
  speakers_of-AreSpeakers env m req audio diar taken (id ∷ ids) last =
      then-Ensures (IsSpeaker id (ms id)) Good (speaker_of env m req audio diar id (taken id) last)
        _ (speaker_of-IsSpeaker env m req audio diar id (taken id) last)
        (λ one h.
          then-Ensures (λ r. AreSpeakers ms ids r.0) Good
            (speakers_of env m req audio diar taken ids one.1) _
            (speakers_of-AreSpeakers env m req audio diar taken ids one.1)
            (λ rest k. ok-Ensures Good (one.0 ∷ rest.0, rest.1) (h.0, h.1, k)))
    where
      ms : ℕ → ℕ
      ms id = length (taken id) * 1000 / audio.sample_rate

      Good : List (Speaker F) × ℕ → Type 0
      Good r = AreSpeakers ms (id ∷ ids) r.0

  speaker_ids-same :
      (ms : ℕ → ℕ) (ids : List ℕ) (ss : List (Speaker F))
      → AreSpeakers ms ids ss
      → map (λ s. s.id) ss ≡ ids
  speaker_ids-same ms [] [] h = refl
  speaker_ids-same ms [] (s ∷ ss) h = absurd h
  speaker_ids-same ms (id ∷ ids) [] h = absurd h
  speaker_ids-same ms (id ∷ ids) (s ∷ ss) (e, f, h) = rw (e, speaker_ids-same ms ids ss h) refl

  speech-bounded :
      (ms : ℕ → ℕ) (ids : List ℕ) (ss : List (Speaker F))
      → ((id : ℕ) → ms id ≤ 30000)
      → AreSpeakers ms ids ss
      → All (λ s. s.speech_ms ≤ 30000) ss
  speech-bounded ms [] [] b h = tt
  speech-bounded ms [] (s ∷ ss) b h = absurd h
  speech-bounded ms (id ∷ ids) [] b h = absurd h
  speech-bounded ms (id ∷ ids) (s ∷ ss) b (e, f, h) =
      (omega (arith, f, b id), speech-bounded ms ids ss b h)

  -- A timeline of segments, speakers in strictly ascending order, each with at most 30 seconds of
  -- samples, and the turns of the diarizer.
  pub record IsReport (r : Result F) : Type 0 where
    pub timeline : IsTimeline 0 r.segments
    pub distinct : IsAscending (map (λ s. s.id) r.speakers)
    pub bounded : All (λ s. s.speech_ms ≤ 30000) r.speakers

  taken-bounded :
      (audio : Audio) (diar : DiarizationResult F) (id : ℕ)
      → length (collect_speaker_samples audio.samples diar.turns (30 * audio.sample_rate) id)
          * 1000
          / audio.sample_rate
        ≤ 30000
  taken-bounded audio diar id = div-le_of_le-mul audio.sample_rate (
      omega (
        arith,
        (collect_speaker_samples-length audio.samples diar.turns (30 * audio.sample_rate) id).1,
      ))

  report-IsReport :
      (env : Env F) (m : Manager F) (req : Request) (audio : Audio) (separator : ℕ)
      (diar : DiarizationResult F)
      → All IsBounded diar.turns
      → Ensures IsReport (report env m req audio separator diar)
  unfolding report speaker_keys
  report-IsReport env m req audio separator diar b =
      then-Ensures (λ r. Retexts merged r.0) IsReport (transcribed env m req audio merged) _
        (transcribed-Retexts env m req audio merged)
        (λ texts h.
          then-Ensures (λ r. AreSpeakers ms keys r.0) IsReport
            (speakers_of env m req audio diar taken keys 0) _
            (speakers_of-AreSpeakers env m req audio diar taken keys 0)
            (λ speakers k. ok-Ensures IsReport _ (record {
              timeline =
                  Retexts-IsTimeline 0 merged texts.0 h
                    (merge_turns-IsTimeline diar.turns diar.sample_rate b);
              distinct = subst IsAscending (sym (speaker_ids-same ms keys speakers.0 k)) (
                  unique-IsAscending (sort (spoken_ids taken diar.turns))
                    (sort-Rises (spoken_ids taken diar.turns)));
              bounded = speech-bounded ms keys speakers.0 (taken-bounded audio diar) k;
            })))
    where
      merged : List (Segment F)
      merged = merge_turns diar.turns diar.sample_rate

      taken : ℕ → List ℕ
      taken = collect_speaker_samples audio.samples diar.turns (30 * audio.sample_rate)

      keys : List ℕ
      keys = speaker_keys taken diar.turns

      ms : ℕ → ℕ
      ms id = length (taken id) * 1000 / audio.sample_rate

  -- The diarizer gives positions whose thousandfolds are int64.
  abbrev pub GivesBounded : Env F → Type 0
  GivesBounded env =
      (wav : List ℕ) (diar : DiarizationResult F)
      → env.diarize wav ≡ some diar
      → All IsBounded diar.turns

  analyze-Ensures :
      (env : Env F) (m : Manager F) (req : Request)
      → GivesBounded env
      → Ensures IsReport (analyze env m req)
  unfolding analyze
  analyze-Ensures env m req b =
      if_both (Ensures IsReport) (not m.has_normalizer) (fail no_normalizer) _
        (record { holds = tt })
        (then-Ensures_any IsReport (prepare env m req) _ (λ p.
          then-Ensures_any IsReport (parsed (parse p.0)) _ (λ audio.
            then-Ensures_any IsReport (need _ _) _ (λ id.
              then-Ensures (λ diar. All IsBounded diar.turns) IsReport
                (within_gate (env.gate id) id (need diarize_failed (env.diarize p.0))) _
                (within_gate-Ensures (λ diar. All IsBounded diar.turns) (env.gate id) id
                  (need diarize_failed (env.diarize p.0))
                  (need-Ensures (λ diar. All IsBounded diar.turns) diarize_failed (env.diarize p.0)
                    (b p.0)))
                (λ diar h. report-IsReport env m req audio p.1 (with_rate audio diar) h)))))

  -- If the starts and ends of the diarizer's turns, in thousands, are int64 and analyze succeeds, the
  -- segments of the result come one after the other in time, each with at least one speaker, and a
  -- transcription leaves them so; the speakers are listed once each, in ascending order, and each
  -- has at most 30 seconds of speech.
  pub analyze-IsReport :
      (env : Env F) (m : Manager F) (req : Request) (result : Result F)
      → GivesBounded env
      → (analyze env m req).1 ≡ inr result
      → IsReport result
  analyze-IsReport env m req result b =
      outcome-Ensures IsReport (analyze env m req) result (analyze-Ensures env m req b)
