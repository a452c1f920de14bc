-- ===== src/Encode/Normalize.antt =====
-- NormalizeAudio and NormalizeReferenceAudio of internal/encode/normalize.go. What the ffmpeg
-- process answers is a parameter.
use audio_server.Common.{
  ℕ, ◌==◌, ◌&&◌, not, if◌then◌else◌, is_empty, Bool, true, false, ◌⊎◌, inl, inr, List,
}
use audio_server.Encode.Wav16.{
  Error, empty_audio, unsupported_target, no_ffmpeg, canceled, decode_failed, no_samples, unaligned,
  too_large, pcm16_wav,
}
use audio_server.Encode.Matches.{Format, matches_wav}

pub record Normalized : Type 0 where
  pub audio : List ℕ
  pub converted : Bool

-- How the decoding process ends, for the audio and the rate and channels on its command line.
pub data Decoded : Type 0 where
  canceled_run failed_run : Decoded
  pcm : List ℕ → Decoded

pub record Ffmpeg : Type 0 where
  pub is_found : Bool
  pub decode : List ℕ → ℕ → ℕ → Decoded

abbrev pub wrap : Error ⊎ List ℕ → Error ⊎ Normalized
wrap (inl e) = inl e
wrap (inr wav) = inr (record { audio = wav; converted = true })

unfoldable pub convert : Format → Decoded → Error ⊎ Normalized
unfolding pcm16_wav
convert target canceled_run = inl canceled
convert target failed_run = inl decode_failed
convert target (pcm samples) = wrap (pcm16_wav samples target.sample_rate target.channels)

abbrev pub is_target : Format → Bool
is_target target =
    target.is_wav
    && target.is_pcm_s16le
    && not (target.sample_rate == 0)
    && not (target.channels == 0)

unfoldable pub normalize_audio : Ffmpeg → List ℕ → Format → Error ⊎ Normalized
unfolding matches_wav convert
normalize_audio f audio target =
    if is_empty audio
    then inl empty_audio
    else if matches_wav audio target
    then inr (record { audio = audio; converted = false })
    else if not (is_target target)
    then inl unsupported_target
    else if not f.is_found
    then inl no_ffmpeg
    else convert target (f.decode audio target.sample_rate target.channels)

-- The classes of errors of internal/provider and internal/sttprovider.
pub data Class : Type 0 where
  invalid_request unsupported_format unavailable other_error : Class

abbrev pub class_of : Error → Class
class_of empty_audio = invalid_request
class_of unsupported_target = unsupported_format
class_of no_ffmpeg = unavailable
class_of canceled = other_error
class_of decode_failed = invalid_request
class_of no_samples = invalid_request
class_of unaligned = unavailable
class_of too_large = invalid_request

-- An error that is neither invalid nor unsupported is reported as unavailable.
abbrev pub reference_class : Class → Class
reference_class invalid_request = invalid_request
reference_class unsupported_format = unsupported_format
reference_class unavailable = unavailable
reference_class other_error = unavailable

abbrev pub reference_target : Format
reference_target = record { is_wav = true; is_pcm_s16le = true; sample_rate = 24000; channels = 1 }

abbrev pub audio_or_class : Error ⊎ Normalized → Class ⊎ List ℕ
audio_or_class (inl e) = inl (reference_class (class_of e))
audio_or_class (inr n) = inr n.audio

unfoldable pub normalize_reference_audio : Ffmpeg → List ℕ → Class ⊎ List ℕ
unfolding normalize_audio
normalize_reference_audio f audio = audio_or_class (normalize_audio f audio reference_target)
