-- ===== src/Encode/Runs.antt =====
-- Tests of internal/encode/normalize.go.
use audio_server.Common.{ℕ, ◌≡◌, refl, true, false, inl, inr, arith, List, [], ◌∷◌}
use audio_server.Encode.Wav16.{wav_bytes}
use audio_server.Encode.Matches.{Format}
use audio_server.Encode.Normalize.{
  Normalized, pcm, failed_run, Ffmpeg, invalid_request, normalize_audio, normalize_reference_audio,
}
use audio_server.Encode.Again.{normalize_audio_again}

abbrev mono : Format
mono = record { is_wav = true; is_pcm_s16le = true; sample_rate = 16000; channels = 1 }

abbrev decoder : Ffmpeg
decoder = record { is_found = true; decode = λ audio rate channels. pcm (1 ∷ 0 ∷ 2 ∷ 0 ∷ []) }

abbrev broken : Ffmpeg
broken = record { is_found = true; decode = λ audio rate channels. failed_run }

abbrev upload : List ℕ
upload = 5 ∷ 6 ∷ []

abbrev normalized : Normalized
normalized = record { audio = wav_bytes (1 ∷ 0 ∷ 2 ∷ 0 ∷ []) 16000 1; converted = true }

converts_once : normalize_audio decoder upload mono ≡ inr normalized
unfolding normalize_audio
converts_once = refl

undecodable_reference : normalize_reference_audio broken upload ≡ inl invalid_request
unfolding normalize_reference_audio
undecodable_reference = refl

normalize_audio_again_example :
    normalize_audio broken normalized.audio mono
    ≡ inr (record { audio = normalized.audio; converted = false })
normalize_audio_again_example =
    normalize_audio_again decoder broken upload mono normalized (omega arith) (omega arith)
      converts_once
