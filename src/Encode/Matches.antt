-- ===== src/Encode/Matches.antt =====
-- matchesWAV of internal/encode/normalize.go. The loop's offset is the list of the bytes that are
-- left.
use audio_server.Common.{
  ℕ, zero, suc, ◌+◌, ◌%◌, ◌==◌, ltb, ◌&&◌, ◌||◌, if◌then◌else◌, Bool, false, List, [], ◌∷◌, drop,
  length,
}
use audio_server.Wav.Bytes.{u16, u32}
use audio_server.Wav.Parse.{ChunkId, fmt_id, data_id, other_id, chunk_id}

-- AudioFormat: whether the container is wav and the codec pcm_s16le, in any case.
pub record Format : Type 0 where
  pub is_wav : Bool
  pub is_pcm_s16le : Bool
  pub sample_rate : ℕ
  pub channels : ℕ

pub record Found : Type 0 where
  pub format_matches : Bool
  pub data_found : Bool

abbrev pub is_format : Format → List ℕ → Bool
is_format required body =
    (u16 body == 1)
    && (u16 (drop 2 body) == required.channels)
    && (u32 (drop 4 body) == required.sample_rate)
    && (u16 (drop 14 body) == 16)

-- What a chunk adds to what was found.
abbrev pub note_chunk : Format → ChunkId → ℕ → List ℕ → Found → Found
note_chunk required fmt_id size body w = record w { format_matches = is_format required body }
note_chunk required data_id size body w = record w { data_found = w.data_found || ltb 0 size }
note_chunk required other_id size body w = w

abbrev pub is_short : ChunkId → ℕ → Bool
is_short fmt_id size = ltb size 16
is_short data_id size = false
is_short other_id size = false

abbrev pub verdict : Found → Bool
verdict w = w.format_matches && w.data_found

-- At the end of the fuel, which there is no reaching, the answer is no.
unfoldable pub scan : Format → ℕ → List ℕ → Found → Bool
unfolding chunk_id
scan required zero rest w = false
scan required (suc fuel) (a ∷ b ∷ c ∷ d ∷ e ∷ f ∷ g ∷ h ∷ body) w =
    let size = u32 (e ∷ f ∷ g ∷ h ∷ []) in
    let id = chunk_id a b c d in
    let more =
      scan required fuel (drop (size + size % 2) body) (note_chunk required id size body w) in
    if ltb (length body) size then false else if is_short id size then false else more
scan required (suc fuel) _ w = verdict w

unfoldable pub matches_wav : List ℕ → Format → Bool
unfolding scan
matches_wav (r ∷ i ∷ f ∷ f' ∷ s ∷ t ∷ u ∷ v' ∷ w ∷ a ∷ v ∷ e ∷ rest) required =
    required.is_wav
    && required.is_pcm_s16le
    && (r == 82)
    && (i == 73)
    && (f == 70)
    && (f' == 70)
    && (w == 87)
    && (a == 65)
    && (v == 86)
    && (e == 69)
    && (u32 (s ∷ t ∷ u ∷ v' ∷ []) == 4 + length rest)
    && scan required (suc (length rest)) rest
        (record { format_matches = false; data_found = false })
matches_wav _ required = false
