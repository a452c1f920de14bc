-- ===== src/Wav/Encode.antt =====
-- Encode of internal/pcmwav/pcmwav.go. A sample rate of type int that is negative is refused like 0.
use audio_server.Common.{
  ℕ, ◌+◌, ◌*◌, ◌==◌, ltb, ◌||◌, if◌then◌else◌, is_empty, Option, none, some, List, [], ◌∷◌, ◌++◌,
  length,
}
use audio_server.Wav.Bytes.{put_u16, put_u32, put_samples}
use audio_server.Wav.Parse.{Audio}

abbrev riff : List ℕ
riff = 82 ∷ 73 ∷ 70 ∷ 70 ∷ []

abbrev wave_fmt : List ℕ
wave_fmt = 87 ∷ 65 ∷ 86 ∷ 69 ∷ 102 ∷ 109 ∷ 116 ∷ 32 ∷ []

abbrev data_name : List ℕ
data_name = 100 ∷ 97 ∷ 116 ∷ 97 ∷ []

-- A number that does not fit is cut by its conversion to uint32.
unfoldable pub encode : Audio → Option (List ℕ)
unfolding put_samples
encode audio =
    let data_size = length audio.samples * 2 in
    if (audio.sample_rate == 0) || is_empty audio.samples
    then none
    else if ltb 4294967259 data_size
    then none
    else some (
        riff
        ++ put_u32 (36 + data_size)
        ++ wave_fmt
        ++ put_u32 16
        ++ put_u16 1
        ++ put_u16 1
        ++ put_u32 audio.sample_rate
        ++ put_u32 (audio.sample_rate * 2)
        ++ put_u16 2
        ++ put_u16 16
        ++ data_name
        ++ put_u32 data_size
        ++ put_samples audio.samples)
