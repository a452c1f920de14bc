-- ===== src/Analysis/Runs.antt =====
-- Tests of internal/analysisjob/manager.go, with confidences in ℕ.
use audio_server.Common.{
  All, arith, subst, ltb, ◌-◌, ap, true, false, Option, none, some, inr, ℕ, ◌+◌, ◌/◌, ◌≡◌, refl,
  min, List, [], ◌∷◌, map, length, sum_by,
}
use audio_server.Analysis.Types.{Floats, SpeakerTurn, DiarizationResult}
use audio_server.Int64.{origin}
use audio_server.Analysis.Merge.{merge_turns}
use audio_server.Analysis.Samples.{collect_speaker_samples}
use audio_server.Analysis.Timeline.{IsTimeline, IsBounded, merge_turns-IsTimeline}
use audio_server.Wav.Parse.{Audio}
use audio_server.Wav.Encode.{encode}
use audio_server.Analysis.Effects.{opens, takes, gives}
use audio_server.Analysis.Jobs.{
  Request, Result, Job, Manager, knows_models, queued_job, submit, get,
}
use audio_server.Analysis.Analyze.{Env, analyze, run_job}
use audio_server.Analysis.Serial.{IsSerial, analyze-IsSerial}
use audio_server.Analysis.Report.{IsReport, GivesBounded, analyze-IsReport}
use audio_server.Analysis.Submit.{IsFinal, get-run_job}
use audio_server.Analysis.Share.{turn_share, IsWithin, collect_speaker_samples-length}

abbrev numbers : Floats
numbers = record { Float = ℕ; zero = 0; add = λ a b. a + b; over = λ a n. a / n }

abbrev turn : ℕ → ℕ → ℕ → SpeakerTurn numbers
turn id start end = record {
  start_sample = origin + start;
  end_sample = origin + end;
  speaker_id = id;
  confidence = 8;
}

-- Speaker 2 talks into the end of speaker 1.
abbrev talk : List (SpeakerTurn numbers)
talk = turn 1 0 4 ∷ turn 2 2 6 ∷ []

talk_speakers :
    map (λ s. s.speaker_ids) (merge_turns talk 1000) ≡ (1 ∷ []) ∷ (1 ∷ 2 ∷ []) ∷ (2 ∷ []) ∷ []
unfolding merge_turns
talk_speakers = refl

-- An empty turn makes no boundary, but its speaker counts for the segment around it.
empty_turn_speaks :
    map (λ s. s.speaker_ids) (merge_turns (turn 1 0 4 ∷ turn 2 3 3 ∷ []) 1000) ≡ (1 ∷ 2 ∷ []) ∷ []
unfolding merge_turns
empty_turn_speaks = refl

talk-IsBounded : All IsBounded talk
talk-IsBounded = (
  ((omega arith, omega arith), (omega arith, omega arith)),
  (((omega arith, omega arith), (omega arith, omega arith)), tt),
)

-- A turn that begins before the audio, and one whose end in thousands is no int64.
abbrev early_and_huge : List (SpeakerTurn numbers)
early_and_huge =
    record { start_sample = origin - 3; end_sample = origin + 2; speaker_id = 1; confidence = 8 }
    ∷ turn 2 0 10000000000000000
    ∷ []

-- The end wraps around: the last segment ends before it starts.
huge_ends_early :
    map (λ s. ltb s.end_ms s.start_ms) (merge_turns (turn 2 0 10000000000000000 ∷ []) 1) ≡ true ∷ []
unfolding merge_turns
huge_ends_early = refl

early_turn_counts :
    collect_speaker_samples {Sample = ℕ} (7 ∷ 8 ∷ 9 ∷ []) early_and_huge 9 1 ≡ 7 ∷ 8 ∷ []
unfolding collect_speaker_samples
early_turn_counts = refl

merge_turns-IsTimeline_example : IsTimeline 0 (merge_turns talk 1000)
merge_turns-IsTimeline_example = merge_turns-IsTimeline talk 1000 talk-IsBounded

abbrev audio : List ℕ
audio = 7 ∷ 7 ∷ 8 ∷ 8 ∷ 9 ∷ []

collect_speaker_samples-length_example :
    All (IsWithin 5) talk
    × (length (collect_speaker_samples audio talk 3 2) ≡ min 3 (sum_by (turn_share 5 2) talk))
collect_speaker_samples-length_example = collect_speaker_samples-length audio talk 3 2

-- A request whose diarizer answers with the talk, in audio of six samples at 1000 Hz.
abbrev sound : Audio
sound = record { sample_rate = 1000; samples = 1 ∷ 2 ∷ 3 ∷ 4 ∷ 5 ∷ 6 ∷ [] }

abbrev wav_of : Option (List ℕ) → List ℕ
wav_of none = []
wav_of (some wav) = wav

abbrev quiet : Env numbers
quiet = record {
  normalize_stereo = λ a. some a;
  normalize = λ a. some (wav_of (encode sound));
  gate = λ id. opens;
  separate = λ a. none;
  is_vocal = λ n. false;
  diarize = λ a. some (record {
    provider_id = 7;
    sample_rate = 0;
    turns = talk;
    speaker_embeddings = [];
    embedding_model = 0;
  });
  transcribe = λ i wav. none;
  embed = λ id wav. none;
}

abbrev one_diarizer : Manager numbers
one_diarizer = record {
  jobs = λ id. none;
  diarizers = (5, 7) ∷ [];
  default_diarizer = 5;
  has_embedder = false;
  separators = [];
  default_separator = 0;
  has_normalizer = true;
  transcribers = [];
  default_transcriber = 0;
}

abbrev plain : ℕ → Request
plain model = record {
  audio = 1 ∷ [];
  include_speaker_embeddings = false;
  transcribe = false;
  transcription_model = 0;
  diarization_model = model;
  language = 0;
  separate_dialogue = false;
  separation_model = 0;
}

abbrev talked : Result numbers
talked = record {
  duration_ms = 6;
  sample_rate = 1000;
  diarizer = 7;
  embedder = 0;
  transcriber = 0;
  separator = 0;
  speakers =
      record { id = 1; speech_ms = 4; embedding_model = 0; embedding = [] }
      ∷ record { id = 2; speech_ms = 4; embedding_model = 0; embedding = [] }
      ∷ [];
  segments = merge_turns talk 1000;
  raw_turns = talk;
}

talk_report : analyze quiet one_diarizer (plain 5) ≡ (takes 7 ∷ gives 7 ∷ [], inr talked)
unfolding analyze encode audio_server.Wav.Bytes.samples
talk_report = refl

quiet-GivesBounded : GivesBounded quiet
quiet-GivesBounded wav diar q = subst (λ o. All IsBounded (turns_of o)) q talk-IsBounded
  where
    turns_of : Option (DiarizationResult numbers) → List (SpeakerTurn numbers)
    turns_of none = []
    turns_of (some d) = d.turns

analyze-IsReport_example : IsReport talked
analyze-IsReport_example =
    analyze-IsReport quiet one_diarizer (plain 5) talked quiet-GivesBounded
      (ap (λ r. r.1) talk_report)

analyze-IsSerial_example : IsSerial (analyze quiet one_diarizer (plain 5)).0
analyze-IsSerial_example = analyze-IsSerial quiet one_diarizer (plain 5)

get-run_job_example :
    (get 3 (submit (some 3) (plain 0) one_diarizer).1 ≡ inr queued_job)
    × (knows_models one_diarizer (plain 5) ≡ true)
    × ((job : Job numbers) × (get 3
            (run_job quiet 3 (plain 5) (submit (some 3) (plain 0) one_diarizer).1)
          ≡ inr job)
        × IsFinal job)
unfolding submit
get-run_job_example =
    get-run_job (some 3) (plain 0) one_diarizer 3 (plain 5) quiet quiet-GivesBounded refl
