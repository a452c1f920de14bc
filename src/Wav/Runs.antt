-- ===== src/Wav/Runs.antt =====
-- Tests of internal/pcmwav/pcmwav.go.
use audio_server.Common.{ℕ, ◌≡◌, ◌≢◌, refl, some, inl, inr, arith, List, [], ◌∷◌}
use audio_server.Wav.Parse.{Audio, not_riff, chunk_size, out_of_fuel, parse}
use audio_server.Wav.Encode.{encode}
use audio_server.Wav.RoundTrip.{parse-encode}
use audio_server.Wav.Fuel.{parse-ends}

abbrev clip : Audio
clip = record { sample_rate = 16000; samples = 32768 ∷ 65535 ∷ 0 ∷ 1 ∷ [] }

-- A chunk that claims five bytes more than there are.
abbrev truncated : List ℕ
truncated =
    82 ∷ 73 ∷ 70 ∷ 70 ∷ 0 ∷ 0 ∷ 0 ∷ 0 ∷ 87 ∷ 65 ∷ 86 ∷ 69 ∷ 100 ∷ 97 ∷ 116 ∷ 97 ∷ 5 ∷ 0 ∷ 0 ∷ 0 ∷ []

truncated-parse : parse truncated ≡ inl chunk_size
unfolding parse
truncated-parse = refl

empty-parse : parse [] ≡ inl not_riff
unfolding parse
empty-parse = refl

parse-encode_example : (bytes : List ℕ) × (encode clip ≡ some bytes) × (parse bytes ≡ inr clip)
parse-encode_example =
    parse-encode clip (omega arith) (omega arith) (omega arith) (omega arith)
      (omega arith, (omega arith, (omega arith, (omega arith, tt))))

parse-ends_example : parse truncated ≢ inl out_of_fuel
parse-ends_example = parse-ends truncated
