-- ===== src/Wav/RoundTrip.antt =====
-- Parse reads back what Encode of internal/pcmwav/pcmwav.go writes.
use audio_server.Common.{
  ℕ, zero, suc, ◌+◌, ◌*◌, ◌%◌, ◌<◌, ◌≤◌, ◌==◌, ltb, ◌≡◌, refl, ap, ◌∙◌, is_empty, false, inr, some,
  arith, List, [], ◌∷◌, ◌++◌, take, drop, length, All,
}
use audio_server.Wav.Bytes.{
  put_u16, put_u32, put_samples, u32-put_u32, samples-put_samples, length-put_samples,
}
use audio_server.Wav.Parse.{
  Audio, Chunks, no_chunks, chunk_id, read_chunk, read_chunks, finish, parse,
}
use audio_server.Wav.Encode.{encode}

take-length : (xs : List ℕ) → take (length xs) xs ≡ xs
take-length [] = refl
take-length (x ∷ xs) = cc (take-length xs)

drop-length : (n : ℕ) (xs : List ℕ) → length xs ≤ n → drop n xs ≡ []
drop-length zero [] h = refl
drop-length zero (x ∷ xs) h = absurd (too_short h)
  where
    too_short : suc (length xs) ≤ 0 → ⊥
    too_short h = omega (arith, h)
drop-length (suc n) [] h = refl
drop-length (suc n) (x ∷ xs) h = drop-length n xs (omega (arith, h))

not-ltb_self : (n : ℕ) → ltb n n ≡ false
not-ltb_self n = ground arith

data_chunk :
    (fuel : ℕ) (pcm : List ℕ) (w : Chunks)
    → length pcm < 4294967296
    → read_chunks (suc (suc fuel)) (100 ∷ 97 ∷ 116 ∷ 97 ∷ put_u32 (length pcm) ++ pcm) w
      ≡ inr (record w { pcm = pcm })
unfolding read_chunks chunk_id read_chunk
data_chunk fuel pcm w h =
    rw
      (
        u32-put_u32 (length pcm) [] h,
        not-ltb_self (length pcm),
        take-length pcm,
        drop-length (length pcm + length pcm % 2) pcm (omega arith),
      )
      refl

ltb-16 : (n : ℕ) → ltb (16 + n) 16 ≡ false
ltb-16 n = ground arith

fmt_chunk :
    (fuel r : ℕ) (more : List ℕ) (w : Chunks)
    → r < 4294967296
    → read_chunks
        (suc fuel)
        (102 ∷ 109 ∷ 116 ∷ 32 ∷ put_u32 16
          ++ put_u16 1
          ++ put_u16 1
          ++ put_u32 r
          ++ put_u32 (r * 2)
          ++ put_u16 2
          ++ put_u16 16
          ++ more)
        w
      ≡ read_chunks fuel more (record w { format = 1; channels = 1; bits = 16; rate = r })
unfolding read_chunks chunk_id read_chunk
fmt_chunk fuel r more w h = ground (arith, u32-put_u32 r [] h)

abbrev sized_data : ℕ → Audio → List ℕ
sized_data n audio = 100 ∷ 97 ∷ 116 ∷ 97 ∷ put_u32 n ++ put_samples audio.samples

is_empty-length : (xs : List ℕ) → is_empty xs ≡ (length xs == 0)
is_empty-length [] = refl
is_empty-length (x ∷ xs) = ground arith

abbrev chunks : Audio → List ℕ
chunks audio =
    102 ∷ 109 ∷ 116 ∷ 32 ∷ put_u32 16
    ++ put_u16 1
    ++ put_u16 1
    ++ put_u32 audio.sample_rate
    ++ put_u32 (audio.sample_rate * 2)
    ++ put_u16 2
    ++ put_u16 16
    ++ sized_data (length audio.samples * 2) audio

read_chunks-chunks :
    (fuel : ℕ) (audio : Audio)
    → audio.sample_rate < 4294967296
    → length audio.samples * 2 < 4294967296
    → read_chunks (suc (suc (suc fuel))) (chunks audio) no_chunks
      ≡ inr (record {
        format = 1;
        channels = 1;
        bits = 16;
        rate = audio.sample_rate;
        pcm = put_samples audio.samples;
      })
read_chunks-chunks fuel audio r n =
    fmt_chunk (suc (suc fuel)) audio.sample_rate (sized_data (length audio.samples * 2) audio)
      no_chunks r
    ∙ rw⁻¹ (length-put_samples audio.samples) (
        data_chunk fuel (put_samples audio.samples)
          (record no_chunks { format = 1; channels = 1; bits = 16; rate = audio.sample_rate })
          (omega (arith, length-put_samples audio.samples, n)))

finish-chunks :
    (audio : Audio)
    → 0 < audio.sample_rate
    → 0 < length audio.samples
    → All (λ x. x < 65536) audio.samples
    → finish (
        inr (record {
          format = 1;
          channels = 1;
          bits = 16;
          rate = audio.sample_rate;
          pcm = put_samples audio.samples;
        }))
      ≡ inr audio
unfolding finish
finish-chunks audio r n h = ground (
  arith,
  r,
  n,
  length-put_samples audio.samples,
  is_empty-length (put_samples audio.samples),
  samples-put_samples audio.samples h,
)

-- What Encode writes for any audio with a rate above 0, at least one sample, and values that fit in
-- their fields, Parse reads back as the same audio.
pub parse-encode :
    (audio : Audio)
    → 0 < audio.sample_rate
    → audio.sample_rate < 4294967296
    → 0 < length audio.samples
    → length audio.samples * 2 ≤ 4294967259
    → All (λ x. x < 65536) audio.samples
    → (bytes : List ℕ) × (encode audio ≡ some bytes) × (parse bytes ≡ inr audio)
unfolding encode parse
parse-encode audio r r' n n' h = (
  82 ∷ 73 ∷ 70 ∷ 70 ∷ put_u32 (36 + length audio.samples * 2) ++ 87 ∷ 65 ∷ 86 ∷ 69 ∷ chunks audio,
  ground (arith, r, n, n', is_empty-length audio.samples),
  ap finish (read_chunks-chunks (length (drop 2 (chunks audio))) audio r' (omega (arith, n')))
      ∙ finish-chunks audio r n h,
)
