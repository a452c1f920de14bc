-- ===== src/Server/Types.antt =====
-- What internal/server/server.go knows of a request and of its providers
-- (internal/provider/provider.go, internal/sttprovider/sttprovider.go).
use audio_server.Common.{ℕ, ◌==◌, ltb, Bool, true, false, Option, List, ◌⊎◌, ◌^◌}
use audio_server.Segment.Text.{Text}

-- A float64: a sign, true for minus, with infinity or with a multiple of 2^-1074.
pub data Float : Type 0 where
  nan : Float
  infinite : Bool → Float
  finite : Bool → ℕ → Float

-- 0.25 and 4 in those units.
unfoldable pub quarter : ℕ
quarter = 2 ^ 1072

unfoldable pub four : ℕ
four = 2 ^ 1076

unfoldable pub is_zero : Float → Bool
is_zero (finite _ n) = n == 0
is_zero _ = false

unfoldable pub below_quarter : Float → Bool
unfolding quarter
below_quarter nan = false
below_quarter (infinite minus) = minus
below_quarter (finite true n) = true
below_quarter (finite false n) = ltb n quarter

unfoldable pub above_four : Float → Bool
unfolding four
above_four nan = false
above_four (infinite true) = false
above_four (infinite false) = true
above_four (finite true n) = false
above_four (finite false n) = ltb four n

pub record SpeechRequest : Type 0 where
  pub model : Text
  pub input : Text
  pub voice : Text
  pub language : Text
  pub response_format : Text
  pub speed : Float
  pub provider_options : List ℕ
  pub stream : Bool
  pub speaker_reference : List ℕ
  pub speaker_reference_filename : Text
  pub speaker_reference_text : Text

-- The classes of errors that writeProviderError tells apart.
pub data Failure : Type 0 where
  canceled deadline_exceeded unsupported_format invalid_request unavailable other_failure : Failure

pub record Voice : Type 0 where
  pub provider : Text
  pub voice : Text
  pub language : Text
  pub name : Text
  pub gender : Text

pub record ReferenceAudioCapabilities : Type 0 where
  pub combined_speaker_emotion : Bool
  pub separate_emotion : Bool

-- A provider by its answers. The optional interfaces: `supports_auto_language` and
-- `reference_audio_capabilities` are `none` where the provider lacks the method.
pub record Provider : Type 0 where
  pub id : Text
  pub voices : Text → Failure ⊎ List Voice
  pub supports_auto_language : Option Bool
  pub reference_audio_capabilities : Option ReferenceAudioCapabilities
  pub is_streamer : Bool
  pub is_lifecycle : Bool

pub record TranscriptionRequest : Type 0 where
  pub audio : List ℕ
  pub filename : Text
  pub language : Text
  pub model : Text

-- The duration, which the server does not read, is left out.
pub record TranscriptionResult : Type 0 where
  pub text : Text
  pub language : Text
  pub provider_id : Text

pub record AudioFormat : Type 0 where
  pub container : Text
  pub codec : Text
  pub sample_rate : ℕ
  pub channels : ℕ

-- A transcription provider by its answers; `transcribe_stream` has the partial results with the
-- final one. The optional interfaces are `none` where the provider lacks them.
pub record SttProvider : Type 0 where
  pub id : Text
  pub audio_requirements : Option AudioFormat
  pub transcribe : TranscriptionRequest → Failure ⊎ TranscriptionResult
  pub transcribe_stream :
      Option (TranscriptionRequest → List TranscriptionResult × (Failure ⊎ TranscriptionResult))
