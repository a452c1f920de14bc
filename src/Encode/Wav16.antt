-- ===== src/Encode/Wav16.antt =====
-- pcm16WAV of internal/encode/normalize.go.
use audio_server.Common.{
  ℕ, ◌+◌, ◌*◌, ◌%◌, ◌==◌, ltb, not, if◌then◌else◌, is_empty, ◌⊎◌, inl, inr, List, ◌∷◌, ◌++◌, length,
}
use audio_server.Wav.Bytes.{put_u16, put_u32}

pub data Error : Type 0 where
  empty_audio unsupported_target no_ffmpeg canceled decode_failed no_samples unaligned too_large :
      Error

-- A number that does not fit in its field is cut by the conversion to it. `wav[4:8]` is the length
-- of the whole less 8.
abbrev pub chunk_bytes : List ℕ → ℕ → ℕ → List ℕ
chunk_bytes pcm sample_rate channels =
    102 ∷ 109 ∷ 116 ∷ 32 ∷ put_u32 16
    ++ put_u16 1
    ++ put_u16 channels
    ++ put_u32 sample_rate
    ++ put_u32 (sample_rate * (channels * 2))
    ++ put_u16 (channels * 2)
    ++ put_u16 16
    ++ 100 ∷ 97 ∷ 116 ∷ 97 ∷ put_u32 (length pcm)
    ++ pcm

abbrev pub wav_bytes : List ℕ → ℕ → ℕ → List ℕ
wav_bytes pcm sample_rate channels =
    82 ∷ 73 ∷ 70 ∷ 70 ∷ put_u32 (36 + length pcm)
    ++ 87 ∷ 65 ∷ 86 ∷ 69 ∷ chunk_bytes pcm sample_rate channels

unfoldable pub pcm16_wav : List ℕ → ℕ → ℕ → Error ⊎ List ℕ
pcm16_wav pcm sample_rate channels =
    if is_empty pcm
    then inl no_samples
    else if not (length pcm % (channels * 2) == 0)
    then inl unaligned
    else if ltb 4294967259 (length pcm)
    then inl too_large
    else inr (wav_bytes pcm sample_rate channels)
