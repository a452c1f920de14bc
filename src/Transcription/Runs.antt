-- ===== src/Transcription/Runs.antt =====
-- Runs of transcriptions of internal/server/server.go.
use audio_server.Common.{◌≡◌, refl, true, none, some, [], ◌∷◌, inr}
use audio_server.Segment.Text.{Text}
use audio_server.Wav.Parse.{parse}
use audio_server.Server.Text.{text_eq, trim, trim_start, trim_end}
use audio_server.Server.Types.{SttProvider}
use audio_server.Server.Setup.{Server, lookup}
use audio_server.Server.Route.{is_one_of, stt_provider_for}
use audio_server.Transcription.Types.{
  opens, Env, Form, acquires, normalizes, releases, transcribes, records, json_text,
}
use audio_server.Transcription.Prepare.{
  before_dot, normalized_wav_filename, first_non_empty, wants_text, wants_stream, renamed,
  with_name, prepare, recordable, recorded, record_upload,
}
use audio_server.Transcription.Handle.{
  answer, stream_transcription, gated, transcribed, need, transcriptions,
}
use audio_server.Transcription.Inside.{IsServed}
use audio_server.Transcription.Served.{transcriptions-IsServed}
use audio_server.Server.Runs.{letters, server}

abbrev whisper : SttProvider
whisper = record {
  id = 119 ∷ [];
  audio_requirements = some (record { container = []; codec = []; sample_rate = 0; channels = 0 });
  transcribe = λ req. inr (record { text = 104 ∷ 105 ∷ []; language = []; provider_id = 119 ∷ [] });
  transcribe_stream = none;
}

abbrev listening : Server
listening = record server {
  stt_providers = (119 ∷ [], whisper) ∷ [];
  default_stt_provider = 119 ∷ [];
}

abbrev env : Env
env = record {
  normalizer = some (λ audio format. inr (record { audio = 7 ∷ audio; converted = true }));
  gate = some (λ id. opens);
  has_corpus = true;
  flushes = true;
}

abbrev upload_form : Form
upload_form = record {
  file = some (record { filename = 97 ∷ 46 ∷ 98 ∷ []; content = some (1 ∷ []) });
  model = [];
  language = 101 ∷ 110 ∷ [];
  response_format = [];
  stream = [];
}

transcriptions-IsServed_example :
    IsServed listening env
      (some upload_form)
      (transcriptions letters listening env (some upload_form))
transcriptions-IsServed_example = transcriptions-IsServed letters listening env (some upload_form)

-- The upload is not a WAV file, so the corpus takes it normalized once more.
gives_the_gate_back : transcriptions letters listening env (some upload_form) ≡ record {
  effects =
      normalizes
      ∷ acquires (119 ∷ [])
      ∷ transcribes (119 ∷ [])
      ∷ normalizes
      ∷ records (7 ∷ 7 ∷ 1 ∷ []) (104 ∷ 105 ∷ []) (119 ∷ []) (101 ∷ 110 ∷ [])
      ∷ releases (119 ∷ [])
      ∷ [];
  response = json_text (104 ∷ 105 ∷ []);
}
unfolding transcriptions need wants_text wants_stream stt_provider_for lookup is_one_of text_eq trim
    trim_start trim_end prepare with_name renamed normalized_wav_filename before_dot transcribed
    gated answer record_upload recordable recorded first_non_empty stream_transcription parse
    audio_server.Segment.Text.is_space
gives_the_gate_back = refl

keeps_the_stem : normalized_wav_filename (97 ∷ 46 ∷ 98 ∷ []) ≡ 97 ∷ 46 ∷ 119 ∷ 97 ∷ 118 ∷ []
unfolding normalized_wav_filename before_dot trim trim_start trim_end
    audio_server.Segment.Text.is_space
keeps_the_stem = refl
