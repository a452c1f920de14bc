-- ===== src/Transcription/Prepare.antt =====
-- The reading of the fields of transcriptions of internal/server/server.go, the preparation of the
-- upload, and recordTranscribedUpload.
use audio_server.Common.{
  ℕ, ◌==◌, ◌||◌, not, ◌++◌, if◌then◌else◌, is_empty, Bool, true, false, Option, none, some, List,
  [], ◌∷◌, ◌⊎◌, inl, inr,
}
use audio_server.Segment.Text.{Text}
use audio_server.Wav.Parse.{parse}
use audio_server.Server.Text.{Letters, text_eq, trim, to_lower}
use audio_server.Server.Types.{Failure, unavailable, AudioFormat, TranscriptionResult, SttProvider}
use audio_server.Server.Route.{is_one_of}
use audio_server.Transcription.Types.{normalizes, Normalized, Env, Effect, records}

-- Everything before the last dot, if there is one.
unfoldable pub before_dot : Text → Option Text
before_dot [] = none
before_dot (c ∷ cs) = elim (before_dot cs) [
  | none ↦ if c == 46 then some [] else none
  | some t ↦ some (c ∷ t)
]

abbrev pub stem_or : Text → Option Text → Text
stem_or name none = name
stem_or name (some []) = name
stem_or name (some (c ∷ cs)) = c ∷ cs

abbrev pub dot_wav : Text
dot_wav = 46 ∷ 119 ∷ 97 ∷ 118 ∷ []

abbrev pub audio_name : Text
audio_name = 97 ∷ 117 ∷ 100 ∷ 105 ∷ 111 ∷ []

unfoldable pub normalized_wav_filename : Text → Text
unfolding trim before_dot
normalized_wav_filename name =
    if is_empty (trim name)
    then audio_name ++ dot_wav
    else stem_or (trim name) (before_dot (trim name)) ++ dot_wav

unfoldable pub first_non_empty : Text → Text → Text
unfolding trim
first_non_empty a b = if is_empty (trim a) then (if is_empty (trim b) then [] else b) else a

abbrev pub json : Text
json = 106 ∷ 115 ∷ 111 ∷ 110 ∷ []

abbrev pub plain : Text
plain = 116 ∷ 101 ∷ 120 ∷ 116 ∷ []

-- Whether the answer is plain text.
unfoldable pub wants_text : Text → Option Bool
unfolding trim text_eq
wants_text format =
    if is_empty (trim format) || text_eq format json
    then some false
    else if text_eq format plain
    then some true
    else none

-- "false" and "0", "true" and "1".
unfoldable pub wants_stream : Letters → Text → Option Bool
unfolding trim is_one_of
wants_stream u value =
    if is_one_of ([] ∷ (102 ∷ 97 ∷ 108 ∷ 115 ∷ 101 ∷ []) ∷ (48 ∷ []) ∷ []) (to_lower u (trim value))
    then some false
    else if is_one_of ((116 ∷ 114 ∷ 117 ∷ 101 ∷ []) ∷ (49 ∷ []) ∷ []) (to_lower u (trim value))
    then some true
    else none

-- The audio and the name of the file for the provider.
unfoldable pub renamed : Text → Normalized → List ℕ × Text
unfolding normalized_wav_filename
renamed name n = (n.audio, if n.converted then normalized_wav_filename name else name)

unfoldable pub with_name : Text → Failure ⊎ Normalized → Failure ⊎ (List ℕ × Text)
unfolding renamed
with_name name (inl e) = inl e
with_name name (inr n) = inr (renamed name n)

-- The call of the normalizer, where there is one, and the audio with its name.
unfoldable pub prepare :
    Env → SttProvider → List ℕ → Text → List Effect × (Failure ⊎ (List ℕ × Text))
unfolding with_name
prepare env p audio name = elim p.audio_requirements [
  | none ↦ ([], inr (audio, name))
  | some format ↦ elim env.normalizer [
    | none ↦ ([], inl unavailable)
    | some normalize ↦ (normalizes ∷ [], with_name name (normalize audio format))
  ]
]

abbrev pub wav16 : AudioFormat
wav16 = record {
  container = 119 ∷ 97 ∷ 118 ∷ [];
  codec = 112 ∷ 99 ∷ 109 ∷ 95 ∷ 115 ∷ 49 ∷ 54 ∷ 108 ∷ 101 ∷ [];
  sample_rate = 16000;
  channels = 1;
}

abbrev pub audio_of : Failure ⊎ Normalized → Option (List ℕ)
audio_of (inl e) = none
audio_of (inr n) = some n.audio

-- The audio that the corpus takes.
unfoldable pub recordable : Env → List ℕ → List Effect × Option (List ℕ)
unfolding parse
recordable env audio = elim (parse audio) [
  | inr sound ↦ ([], some audio)
  | inl e ↦ elim env.normalizer [
    | none ↦ ([], none)
    | some normalize ↦ (normalizes ∷ [], audio_of (normalize audio wav16))
  ]
]

unfoldable pub recorded : TranscriptionResult → Text → List Effect × Option (List ℕ) → List Effect
unfolding first_non_empty
recorded result language (l, none) = l
recorded result language (l, some audio) =
    l
    ++ records audio result.text result.provider_id (first_non_empty result.language language) ∷ []

unfoldable pub record_upload : Env → List ℕ → TranscriptionResult → Text → List Effect
unfolding recordable recorded trim
record_upload env audio result language =
    if not env.has_corpus || is_empty audio || is_empty (trim result.text)
    then []
    else recorded result language (recordable env audio)
