-- ===== src/Encode/Again.antt =====
-- What NormalizeAudio of internal/encode/normalize.go returns is in the target format.
use audio_server.Common.{
  ℕ, zero, suc, ◌+◌, ◌*◌, ◌%◌, ◌<◌, ◌≤◌, ◌==◌, ltb, ◌≡◌, refl, sym, ap, subst, ◌∙◌, ◌||◌, not,
  is_empty, true, false, ◌⊎◌, inl, inr, arith, List, [], ◌∷◌, ◌++◌, drop, length, Bool-cases,
}
use audio_server.Wav.Bytes.{put_u16, put_u32, u16-put_u16, u32-put_u32}
use audio_server.Wav.Parse.{chunk_id}
use audio_server.Encode.Wav16.{Error, chunk_bytes, wav_bytes, pcm16_wav}
use audio_server.Encode.Matches.{Format, Found, verdict, scan, matches_wav}
use audio_server.Encode.Normalize.{
  Normalized, Decoded, canceled_run, failed_run, pcm, Ffmpeg, wrap, convert, is_target,
  normalize_audio,
}

drop-length : (n : ℕ) (xs : List ℕ) → length xs ≤ n → drop n xs ≡ []
drop-length zero [] h = refl
drop-length zero (x ∷ xs) h = absurd (too_short h)
  where
    too_short : suc (length xs) ≤ 0 → ⊥
    too_short h = omega (arith, h)
drop-length (suc n) [] h = refl
drop-length (suc n) (x ∷ xs) h = drop-length n xs (omega (arith, h))

not-ltb_self : (n : ℕ) → ltb n n ≡ false
not-ltb_self n = ground arith

scan-data :
    (t : Format) (fuel : ℕ) (samples : List ℕ) (w : Found)
    → length samples < 4294967296
    → scan t (suc (suc fuel)) (100 ∷ 97 ∷ 116 ∷ 97 ∷ put_u32 (length samples) ++ samples) w
      ≡ verdict (record w { data_found = w.data_found || ltb 0 (length samples) })
unfolding scan chunk_id
scan-data t fuel samples w h =
    rw
      (
        u32-put_u32 (length samples) [] h,
        not-ltb_self (length samples),
        drop-length (length samples + length samples % 2) samples (omega arith),
      )
      refl

scan-fmt :
    (t : Format) (fuel r b a c : ℕ) (more : List ℕ) (w : Found)
    → r < 4294967296
    → c < 65536
    → t.sample_rate ≡ r
    → t.channels ≡ c
    → scan t
        (suc fuel)
        (102 ∷ 109 ∷ 116 ∷ 32 ∷ put_u32 16
          ++ put_u16 1
          ++ put_u16 c
          ++ put_u32 r
          ++ put_u32 b
          ++ put_u16 a
          ++ put_u16 16
          ++ more)
        w
      ≡ scan t fuel more (record w { format_matches = true })
unfolding scan chunk_id
scan-fmt t fuel r b a c more w hr hc er ec =
    ground (arith, u32-put_u32 r [] hr, u16-put_u16 c [] hc, er, ec)

nonempty : (xs : List ℕ) → is_empty xs ≡ false → 0 < length xs
nonempty [] h = absurd (cc h)
nonempty (x ∷ xs) h = omega arith

scan-chunk_bytes :
    (t : Format) (fuel : ℕ) (samples : List ℕ) (w : Found)
    → t.sample_rate < 4294967296
    → t.channels < 65536
    → is_empty samples ≡ false
    → length samples ≤ 4294967259
    → scan t (suc (suc (suc fuel))) (chunk_bytes samples t.sample_rate t.channels) w ≡ true
scan-chunk_bytes t fuel samples w hr hc ne le =
    scan-fmt t (suc (suc fuel)) t.sample_rate (t.sample_rate * (t.channels * 2)) (t.channels * 2)
      t.channels (100 ∷ 97 ∷ 116 ∷ 97 ∷ put_u32 (length samples) ++ samples) w hr hc refl refl
    ∙ scan-data t fuel samples (record w { format_matches = true }) (omega (arith, le))
    ∙ ground (arith, nonempty samples ne)

sized :
    (samples : List ℕ) (r c : ℕ)
    → (36 + length samples == 4 + length (chunk_bytes samples r c)) ≡ true
sized samples r c = ground arith

matches-wav_bytes :
    (t : Format) (samples : List ℕ)
    → t.is_wav ≡ true
    → t.is_pcm_s16le ≡ true
    → t.sample_rate < 4294967296
    → t.channels < 65536
    → is_empty samples ≡ false
    → length samples ≤ 4294967259
    → matches_wav (wav_bytes samples t.sample_rate t.channels) t ≡ true
unfolding matches_wav
matches-wav_bytes t samples hw hp hr hc ne le =
    rw
      (
        hw,
        hp,
        u32-put_u32 (36 + length samples) [] (omega (arith, le)),
        sized samples t.sample_rate t.channels,
      )
      (scan-chunk_bytes t (length (drop 2 (chunk_bytes samples t.sample_rate t.channels))) samples
        (record { format_matches = false; data_found = false }) hr hc ne le)

inr_injective : {E A : Type 0} {a b : A} → ◌≡◌ {A = E ⊎ A} (inr a) (inr b) → a ≡ b
inr_injective q = cc

pcm16_wav-inr :
    (samples : List ℕ) (r c : ℕ) (wav : List ℕ)
    → pcm16_wav samples r c ≡ inr wav
    → (wav_bytes samples r c ≡ wav) × (is_empty samples ≡ false) × (length samples ≤ 4294967259)
unfolding pcm16_wav
pcm16_wav-inr samples r c wav e = elim (Bool-cases (is_empty samples)) [
  | inl h ↦ absurd (ground (arith, e, h))
  | inr h ↦ elim (Bool-cases (not (length samples % (c * 2) == 0))) [
    | inl u ↦ absurd (ground (arith, e, h, u))
    | inr u ↦ elim (Bool-cases (ltb 4294967259 (length samples))) [
      | inl l ↦ absurd (ground (arith, e, h, u, l))
      | inr l ↦ (inr_injective (rw (h, u, l) at e), h, ground (arith, l))
    ]
  ]
]

IsIn : Format → List ℕ → Type 0
IsIn t audio = (is_empty audio ≡ false) × (matches_wav audio t ≡ true)

made-IsIn :
    (t : Format) (samples wav : List ℕ)
    → is_target t ≡ true
    → t.sample_rate < 4294967296
    → t.channels < 65536
    → pcm16_wav samples t.sample_rate t.channels ≡ inr wav
    → IsIn t wav
unfolding IsIn
made-IsIn t samples wav h hr hc q =
    let (e, ne, le) = pcm16_wav-inr samples t.sample_rate t.channels wav q in
    (
      ap is_empty (sym e),
      ap (λ a. matches_wav a t) (sym e)
          ∙ matches-wav_bytes t samples (ground (arith, h)) (ground (arith, h)) hr hc ne le,
    )

wrap-IsIn :
    (t : Format) (o : Error ⊎ List ℕ) (n : Normalized)
    → ((wav : List ℕ) → o ≡ inr wav → IsIn t wav)
    → wrap o ≡ inr n
    → IsIn t n.audio
wrap-IsIn t (inl x) n h e = absurd (no_error e)
  where
    no_error : inl x ≡ inr n → ⊥
    no_error e = cc
wrap-IsIn t (inr wav) n h e = subst (λ a. IsIn t a) (same_audio e) (h wav refl)
  where
    same_audio : wrap (inr wav) ≡ inr n → wav ≡ n.audio
    same_audio e = ap (λ (m : Normalized). m.audio) (inr_injective e)

convert-IsIn :
    (t : Format) (d : Decoded) (n : Normalized)
    → is_target t ≡ true
    → t.sample_rate < 4294967296
    → t.channels < 65536
    → convert t d ≡ inr n
    → IsIn t n.audio
unfolding convert
convert-IsIn t canceled_run n h hr hc e = cc
convert-IsIn t failed_run n h hr hc e = cc
convert-IsIn t (pcm samples) n h hr hc e =
    wrap-IsIn t (pcm16_wav samples t.sample_rate t.channels) n
      (λ wav. made-IsIn t samples wav h hr hc) e

normalized-IsIn :
    (f : Ffmpeg) (audio : List ℕ) (t : Format) (n : Normalized)
    → t.sample_rate < 4294967296
    → t.channels < 65536
    → normalize_audio f audio t ≡ inr n
    → IsIn t n.audio
unfolding normalize_audio IsIn
normalized-IsIn f audio t n hr hc e = elim (Bool-cases (is_empty audio)) [
  | inl h ↦ cc
  | inr h ↦ elim (Bool-cases (matches_wav audio t)) [
    | inl k ↦ ground (arith, e, h, k)
    | inr k ↦ elim (Bool-cases (is_target t)) [
      | inl g ↦ elim (Bool-cases f.is_found) [
        | inl i ↦
            convert-IsIn t (f.decode audio t.sample_rate t.channels) n g hr hc
              (rw (h, k, g, i) at e)
        | inr i ↦ absurd (ground (arith, e, h, k, g, i))
      ]
      | inr g ↦ absurd (ground (arith, e, h, k, g))
    ]
  ]
]

-- What NormalizeAudio returns for a target whose rate and channels fit in their fields, it returns
-- as it is and unconverted if it is given it again, whatever ffmpeg does.
pub normalize_audio_again :
    (f g : Ffmpeg) (audio : List ℕ) (t : Format) (n : Normalized)
    → t.sample_rate < 4294967296
    → t.channels < 65536
    → normalize_audio f audio t ≡ inr n
    → normalize_audio g n.audio t ≡ inr (record { audio = n.audio; converted = false })
unfolding normalize_audio IsIn
normalize_audio_again f g audio t n hr hc e =
    let (ne, m) = normalized-IsIn f audio t n hr hc e in rw (ne, m) refl
