-- ===== src/Server/Route.antt =====
-- validateSpeech, resolveVoice, providerFor and decodeAndRoute of internal/server/server.go.
use audio_server.Common.{
  ℕ, ltb, ◌&&◌, ◌||◌, not, if◌then◌else◌, is_empty, is_some, length, Bool, true, false, Option,
  none, some, List, [], ◌∷◌, ◌⊎◌, inl, inr,
}
use audio_server.Segment.Text.{Text}
use audio_server.Server.Text.{
  Letters, text_eq, trim, equal_fold, auto, mp3, normalize_language, request_language,
  normalized_format,
}
use audio_server.Server.Types.{
  SpeechRequest, Provider, SttProvider, Voice, Failure, canceled, deadline_exceeded,
  unsupported_format, invalid_request, unavailable, other_failure, is_zero, below_quarter,
  above_four,
}
use audio_server.Server.Setup.{Server, lookup}

unfoldable pub is_one_of : List Text → Text → Bool
unfolding text_eq
is_one_of [] t = false
is_one_of (name ∷ names) t = text_eq name t || is_one_of names t

-- wav, ogg, opus, flac and pcm beside mp3.
abbrev pub supported_formats : List Text
supported_formats =
    mp3
    ∷ (119 ∷ 97 ∷ 118 ∷ [])
    ∷ (111 ∷ 103 ∷ 103 ∷ [])
    ∷ (111 ∷ 112 ∷ 117 ∷ 115 ∷ [])
    ∷ (102 ∷ 108 ∷ 97 ∷ 99 ∷ [])
    ∷ (112 ∷ 99 ∷ 109 ∷ [])
    ∷ []

unfoldable pub is_supported : Text → Bool
is_supported format = is_one_of supported_formats format

pub data Invalid : Type 0 where
  no_input input_too_long unknown_format bad_speed : Invalid

unfoldable pub validate_speech : Letters → Server → SpeechRequest → Option Invalid
unfolding trim normalized_format is_supported is_zero below_quarter above_four
validate_speech u s req =
    if is_empty (trim req.input)
    then some no_input
    else if ltb s.max_input_chars (length req.input)
    then some input_too_long
    else if not (is_supported (normalized_format u req.response_format))
    then some unknown_format
    else if not (is_zero req.speed) && (below_quarter req.speed || above_four req.speed)
    then some bad_speed
    else none

-- tts-1, tts-1-hd and gpt-4o-mini-tts beside the empty text and auto.
abbrev pub default_models : List Text
default_models =
    []
    ∷ auto
    ∷ (116 ∷ 116 ∷ 115 ∷ 45 ∷ 49 ∷ [])
    ∷ (116 ∷ 116 ∷ 115 ∷ 45 ∷ 49 ∷ 45 ∷ 104 ∷ 100 ∷ [])
    ∷ (103 ∷ 112 ∷ 116 ∷ 45 ∷ 52 ∷ 111 ∷ 45 ∷ 109 ∷ 105 ∷ 110 ∷ 105 ∷ 45 ∷ 116 ∷ 116 ∷ 115 ∷ [])
    ∷ []

abbrev pub el : Text
el = 101 ∷ 108 ∷ []

abbrev pub omnivoice : Text
omnivoice = 111 ∷ 109 ∷ 110 ∷ 105 ∷ 118 ∷ 111 ∷ 105 ∷ 99 ∷ 101 ∷ []

-- The lookup in languageProviders with the lookup of the provider it names.
unfoldable pub language_provider : Server → Text → Option Provider
unfolding text_eq lookup
language_provider s language =
    let p = lookup omnivoice s.providers in if text_eq language el then p else none

abbrev pub or_else : Option Provider × Bool → Option Provider → Option Provider × Bool
or_else answer none = answer
or_else answer (some p) = (some p, true)

-- The provider, `none` where it is nil, and whether it is known.
unfoldable pub provider_for : Letters → Server → Text → Text → Option Provider × Bool
unfolding trim lookup language_provider normalize_language text_eq
provider_for u s model language =
    let default = lookup s.default_provider s.providers in
    let found = lookup (trim model) s.providers in
    if is_one_of default_models (trim model)
    then or_else (default, true) (language_provider s (normalize_language u language))
    else (found, is_some found)

-- whisper-1.
abbrev pub default_stt_models : List Text
default_stt_models = [] ∷ (119 ∷ 104 ∷ 105 ∷ 115 ∷ 112 ∷ 101 ∷ 114 ∷ 45 ∷ 49 ∷ []) ∷ auto ∷ []

unfoldable pub stt_provider_for : Server → Text → Option SttProvider
unfolding trim lookup text_eq
stt_provider_for s model =
    if is_one_of default_stt_models (trim model)
    then lookup s.default_stt_provider s.stt_providers
    else lookup (trim model) s.stt_providers

abbrev pub supports_auto_language : Provider → Bool
supports_auto_language p = elim p.supports_auto_language [ none ↦ false | some b ↦ b ]

-- The loop over the catalog: the first voice that matches.
unfoldable pub find_voice : Letters → Text → List Voice → Option Text
unfolding equal_fold trim
find_voice u voice [] = none
find_voice u voice (v ∷ vs) =
    let rest = find_voice u voice vs in
    if equal_fold u (trim v.voice) voice then some v.voice else rest

abbrev pub or_invalid : Option Text → Failure ⊎ Text
or_invalid none = inl invalid_request
or_invalid (some v) = inr v

-- The voice that a request for `voice` gets of the catalog `voices`.
unfoldable pub choose_voice : Letters → Text → Failure ⊎ List Voice → Failure ⊎ Text
unfolding equal_fold find_voice
choose_voice u voice (inl e) = inl e
choose_voice u voice (inr voices) =
    if is_empty voices
    then inl invalid_request
    else if equal_fold u voice auto
    then inr auto
    else or_invalid (find_voice u voice voices)

unfoldable pub voice_or_auto : Text → Text
unfolding trim
voice_or_auto voice = if is_empty (trim voice) then auto else trim voice

abbrev pub with_voice : Text → SpeechRequest → Failure ⊎ Text → Failure ⊎ SpeechRequest
with_voice language req (inl e) = inl e
with_voice language req (inr voice) = inr (record req { language = language; voice = voice })

unfoldable pub resolve_voice : Letters → Provider → SpeechRequest → Failure ⊎ SpeechRequest
unfolding request_language choose_voice text_eq
resolve_voice u p req =
    let language = request_language u req.language in
    if text_eq language auto && not (supports_auto_language p)
    then inl invalid_request
    else with_voice language req (choose_voice u (voice_or_auto req.voice) (p.voices language))

-- The statuses of package net/http that are written.
abbrev pub status_of : Failure → ℕ
status_of canceled = 504
status_of deadline_exceeded = 504
status_of unsupported_format = 400
status_of invalid_request = 400
status_of unavailable = 503
status_of other_failure = 500

-- What decodeAndRoute comes to; a nil provider is a panic.
pub data Routed : Type 0 where
  routed : SpeechRequest → Provider → Routed
  rejected : ℕ → Routed
  panicked : Routed

abbrev pub takes_reference : Provider → Bool
takes_reference p = elim p.reference_audio_capabilities [
  | none ↦ false
  | some c ↦ c.combined_speaker_emotion
]

abbrev pub routed_to : Provider → Failure ⊎ SpeechRequest → Routed
routed_to p (inl e) = rejected (status_of e)
routed_to p (inr req) = routed req p

unfoldable pub route_to : Letters → SpeechRequest → Option Provider × Bool → Routed
unfolding resolve_voice
route_to u req (p, false) = rejected 400
route_to u req (none, true) = panicked
route_to u req (some p, true) =
    if not (is_empty req.speaker_reference) && not (takes_reference p)
    then rejected 400
    else routed_to p (resolve_voice u p req)

abbrev pub if_valid : Option Invalid → Routed → Routed
if_valid none r = r
if_valid (some e) r = rejected 400

abbrev pub with_format : Letters → SpeechRequest → SpeechRequest
with_format u req = record req { response_format = normalized_format u req.response_format }

-- The request is `none` where decodeSpeechRequest fails.
unfoldable pub decode_and_route : Letters → Server → Option SpeechRequest → Routed
unfolding validate_speech normalized_format provider_for route_to
decode_and_route u s none = rejected 400
decode_and_route u s (some req) =
    if_valid (validate_speech u s req)
      (route_to u (with_format u req) (provider_for u s req.model req.language))
