-- ===== src/Analysis/Analyze.antt =====
-- analyze of internal/analysisjob/manager.go.
use audio_server.Common.{
  ℕ, ◌*◌, ◌/◌, ◌==◌, ltb, ◌&&◌, not, if◌then◌else◌, is_empty, Bool, Option, none, some, ◌⊎◌, inl,
  inr, List, [], ◌∷◌, length,
}
use audio_server.Wav.Parse.{Audio, parse}
use audio_server.Wav.Encode.{encode}
use audio_server.Analysis.Types.{
  Floats, SpeakerTurn, Segment, Speaker, DiarizationResult, EmbeddingResult,
}
use audio_server.Analysis.Merge.{sort, unique, merge_turns}
use audio_server.Analysis.Samples.{collect_speaker_samples}
use audio_server.Analysis.Effects.{
  unknown_model, no_normalizer, normalize_failed, separate_failed, no_vocals, bad_wav,
  diarize_failed, encode_failed, embed_failed, Run, ok, fail, need, ◌>>=◌, Gate, within_gate,
}
use audio_server.Analysis.Jobs.{Request, Result, Manager, find, begin, conclude}
use audio_server.Analysis.Transcribe.{Transcriber, transcribe_segments}

-- What the calls out of a run answer; `none` is an error. `normalize_stereo` is the normalization
-- to 44100 Hz with two channels, `normalize` that to 16000 Hz with one. The outputs of a separation
-- come in the order of the range over them, and `is_vocal` is the test of their names. A run gate
-- that is not set is one that opens for free.
pub record Env (F : Floats) : Type 0 where
  pub normalize_stereo : List ℕ → Option (List ℕ)
  pub normalize : List ℕ → Option (List ℕ)
  pub gate : ℕ → Gate
  pub separate : List ℕ → Option (ℕ × List (ℕ × List ℕ))
  pub is_vocal : ℕ → Bool
  pub diarize : List ℕ → Option (DiarizationResult F)
  pub transcribe : Transcriber
  pub embed : ℕ → List ℕ → Option (EmbeddingResult F)

-- The loop that looks for the vocals.
unfoldable pub vocals_of : (ℕ → Bool) → List (ℕ × List ℕ) → List ℕ
vocals_of is_vocal [] = []
vocals_of is_vocal ((name, audio) ∷ outputs) =
    if is_vocal name then audio else vocals_of is_vocal outputs

-- The entry of a speaker in the map of embeddings.
unfoldable pub embedding_of : {E : Type 0} → ℕ → List (ℕ × E) → Option E
embedding_of id [] = none
embedding_of id ((key, e) ∷ es) = if key == id then some e else embedding_of id es

abbrev pub parsed : {E : Type 0} → E ⊎ Audio → Run Audio
parsed (inl e) = fail bad_wav
parsed (inr audio) = ok audio

module _ {F : Floats} where
  unfoldable pub vocals_audio : Env F → List ℕ → Run (List ℕ)
  vocals_audio env vocals =
      if is_empty vocals then fail no_vocals else need normalize_failed (env.normalize vocals)

  -- The audio to analyze, normalized, and the separator's ID or the empty one.
  unfoldable pub prepare : Env F → Manager F → Request → Run (List ℕ × ℕ)
  unfolding find within_gate vocals_of vocals_audio
  prepare env m req =
      if not req.separate_dialogue
      then (do audio ← need normalize_failed (env.normalize req.audio); ok (audio, 0))
      else (do
        id ← need unknown_model (find req.separation_model m.separators)
        input ← need normalize_failed (env.normalize_stereo req.audio)
        separated ← within_gate (env.gate id) id (need separate_failed (env.separate input))
        audio ← vocals_audio env (vocals_of env.is_vocal separated.1)
        ok (audio, separated.0))

  -- The keys of the map that collectSpeakerSamples makes, sorted: it has no empty entry.
  unfoldable pub spoken_ids : (ℕ → List ℕ) → List (SpeakerTurn F) → List ℕ
  spoken_ids taken [] = []
  spoken_ids taken (t ∷ ts) =
      let rest = spoken_ids taken ts in
      if is_empty (taken t.speaker_id) then rest else t.speaker_id ∷ rest

  unfoldable pub speaker_keys : (ℕ → List ℕ) → List (SpeakerTurn F) → List ℕ
  unfolding spoken_ids sort unique
  speaker_keys taken turns = unique (sort (spoken_ids taken turns))

  abbrev pub plain_speaker : ℕ → ℕ → Speaker F
  plain_speaker id speech_ms = record {
    id = id;
    speech_ms = speech_ms;
    embedding_model = 0;
    embedding = [];
  }

  -- A speaker and the embedder's ID that the result has then: `last` is what it had.
  abbrev pub diarized_embedding :
      DiarizationResult F → Speaker F → ℕ → Option (List F.Float) → Speaker F × ℕ
  diarized_embedding diar s last none = (s, last)
  diarized_embedding diar s last (some e) =
      (record s { embedding_model = diar.embedding_model; embedding = e }, diar.provider_id)

  unfoldable pub speaker_of :
      Env F
      → Manager F
      → Request
      → Audio
      → DiarizationResult F
      → ℕ
      → List ℕ
      → ℕ
      → Run (Speaker F × ℕ)
  unfolding embedding_of
  speaker_of env m req audio diar id samples last =
      let s = plain_speaker id (length samples * 1000 / audio.sample_rate) in
      if not req.include_speaker_embeddings
      then ok (s, last)
      else if not (is_empty diar.speaker_embeddings)
      then ok (diarized_embedding diar s last (embedding_of id diar.speaker_embeddings))
      else if m.has_embedder && not (ltb (length samples) (audio.sample_rate / 4))
      then (do
        wav ← need encode_failed (encode (record audio { samples = samples }))
        emb ← need embed_failed (env.embed id wav)
        ok (record s { embedding_model = emb.model; embedding = emb.embedding }, emb.provider_id))
      else ok (s, last)

  -- The loop over the speakers: they and the embedder's ID.
  unfoldable pub speakers_of :
      Env F
      → Manager F
      → Request
      → Audio
      → DiarizationResult F
      → (ℕ → List ℕ)
      → List ℕ
      → ℕ
      → Run (List (Speaker F) × ℕ)
  unfolding speaker_of
  speakers_of env m req audio diar taken [] last = ok ([], last)
  speakers_of env m req audio diar taken (id ∷ ids) last = do
    one ← speaker_of env m req audio diar id (taken id) last
    rest ← speakers_of env m req audio diar taken ids one.1
    ok (one.0 ∷ rest.0, rest.1)

  -- The transcription of the segments, if it is asked for, and its provider.
  unfoldable pub transcribed :
      Env F → Manager F → Request → Audio → List (Segment F) → Run (List (Segment F) × ℕ)
  unfolding find transcribe_segments
  transcribed env m req audio segments = if not req.transcribe then ok (segments, 0) else (do
    id ← need unknown_model (find req.transcription_model m.transcribers)
    texts ← transcribe_segments (env.gate id) id env.transcribe audio segments
    ok (texts, id))

  abbrev pub with_rate : Audio → DiarizationResult F → DiarizationResult F
  with_rate audio diar = record diar {
    sample_rate = if diar.sample_rate == 0 then audio.sample_rate else diar.sample_rate;
  }

  -- What follows the diarization.
  unfoldable pub report :
      Env F → Manager F → Request → Audio → ℕ → DiarizationResult F → Run (Result F)
  unfolding merge_turns transcribed collect_speaker_samples speaker_keys speakers_of
  report env m req audio separator diar =
      let taken = collect_speaker_samples audio.samples diar.turns (30 * audio.sample_rate) in
      do
        texts ← transcribed env m req audio (merge_turns diar.turns diar.sample_rate)
        speakers ← speakers_of env m req audio diar taken (speaker_keys taken diar.turns) 0
        ok (record {
          duration_ms = length audio.samples * 1000 / audio.sample_rate;
          sample_rate = diar.sample_rate;
          diarizer = diar.provider_id;
          embedder = speakers.1;
          transcriber = texts.1;
          separator = separator;
          speakers = speakers.0;
          segments = texts.0;
          raw_turns = diar.turns;
        })

  unfoldable pub analyze : Env F → Manager F → Request → Run (Result F)
  unfolding prepare parse find within_gate report
  analyze env m req = if not m.has_normalizer then fail no_normalizer else (do
    (wav, separator) ← prepare env m req
    audio ← parsed (parse wav)
    id ← need unknown_model (find req.diarization_model m.diarizers)
    diar ← within_gate (env.gate id) id (need diarize_failed (env.diarize wav))
    report env m req audio separator (with_rate audio diar))

  -- The goroutine of a job.
  unfoldable pub run_job : Env F → ℕ → Request → Manager F → Manager F
  unfolding begin analyze conclude
  run_job env id req m = conclude id (analyze env (begin id m) req).1 (begin id m)
