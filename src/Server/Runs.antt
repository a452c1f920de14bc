-- ===== src/Server/Runs.antt =====
-- Runs of the server of internal/server/server.go.
use audio_server.Common.{
  ◌≡◌, refl, ◌+◌, ◌*◌, ◌^◌, ◌==◌, leb, ◌&&◌, if◌then◌else◌, true, false, none, some, [], ◌∷◌, inr,
}
use audio_server.Segment.Text.{Text, is_space}
use audio_server.Server.Text.{
  Letters, text_eq, trim, trim_start, trim_end, equal_fold, auto, normalize_language,
  request_language, normalized_format,
}
use audio_server.Server.Types.{
  SpeechRequest, Provider, Voice, finite, is_zero, below_quarter, above_four,
}
use audio_server.Server.Setup.{
  Config, Server, lookup, register, default_of, assemble, with_stt, with_providers, new,
}
use audio_server.Server.Route.{
  is_one_of, is_supported, validate_speech, language_provider, provider_for, find_voice,
  voice_or_auto, choose_voice, resolve_voice, routed, route_to, decode_and_route,
}
use audio_server.Server.Accepted.{Outcome, decode_and_route-IsAccepted}

-- The letters of ASCII.
abbrev pub letters : Letters
letters = record { lower = λ c. if leb 65 c && leb c 90 then c + 32 else c; same = λ c d. c == d }

abbrev m1 : Text
m1 = 77 ∷ 49 ∷ []

abbrev speaker : Voice
speaker = record { provider = 112 ∷ []; voice = m1; language = []; name = m1; gender = [] }

abbrev piper : Provider
piper = record {
  id = 112 ∷ [];
  voices = λ language. inr (speaker ∷ []);
  supports_auto_language = some true;
  reference_audio_capabilities = none;
  is_streamer = false;
  is_lifecycle = false;
}

abbrev config : Config
config = record {
  providers = some piper ∷ [];
  default_provider = 32 ∷ [];
  api_key = [];
  max_input_chars = 0;
  has_queue = true;
  stream_workers = λ id. 0;
  stt_providers = [];
  default_stt_provider = [];
  max_upload_bytes = 0;
  analysis_max_upload_bytes = 0;
}

abbrev pub server : Server
server = record {
  providers = (112 ∷ [], piper) ∷ [];
  default_provider = 112 ∷ [];
  api_key = [];
  max_input_chars = 5000;
  stream_sem = (112 ∷ [], 1) ∷ [];
  stt_providers = [];
  default_stt_provider = [];
  max_upload_bytes = 25 * 2 ^ 20;
  analysis_max_upload_bytes = 2 * 2 ^ 30;
}

made_with_defaults : new config ≡ inr server
unfolding new with_providers with_stt assemble register default_of lookup trim trim_start trim_end
    text_eq audio_server.Segment.Text.is_space
made_with_defaults = refl

-- Hi, with the voice asked for with spaces around it, and the format WAV.
abbrev request : SpeechRequest
request = record {
  model = auto;
  input = 72 ∷ 105 ∷ [];
  voice = 32 ∷ 77 ∷ 49 ∷ 32 ∷ [];
  language = 69 ∷ 78 ∷ 95 ∷ 85 ∷ 83 ∷ [];
  response_format = 87 ∷ 65 ∷ 86 ∷ [];
  speed = finite false 0;
  provider_options = [];
  stream = false;
  speaker_reference = [];
  speaker_reference_filename = [];
  speaker_reference_text = [];
}

decode_and_route-IsAccepted_example :
    Outcome letters config server (some request) (decode_and_route letters server (some request))
decode_and_route-IsAccepted_example =
    decode_and_route-IsAccepted letters config server (some request) made_with_defaults

routes_to_piper :
    decode_and_route letters server (some request)
    ≡ routed
        (record request {
          voice = m1;
          language = 101 ∷ 110 ∷ 45 ∷ 117 ∷ 115 ∷ [];
          response_format = 119 ∷ 97 ∷ 118 ∷ [];
        })
        piper
unfolding decode_and_route validate_speech provider_for route_to resolve_voice choose_voice
    find_voice voice_or_auto is_one_of is_supported language_provider lookup trim trim_start
    trim_end text_eq equal_fold normalize_language request_language normalized_format is_zero
    below_quarter above_four audio_server.Segment.Text.is_space
routes_to_piper = refl
