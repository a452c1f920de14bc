-- ===== src/Wav/Parse.antt =====
-- Parse of internal/pcmwav/pcmwav.go. The loop's offset is the list of the bytes that are left.
-- Lengths of data stay below 2 ^ 63, so sums of offsets and sizes do not wrap.
use audio_server.Common.{
  ℕ, zero, suc, ◌+◌, ◌%◌, ◌==◌, ltb, ◌&&◌, ◌||◌, not, if◌then◌else◌, is_empty, ◌⊎◌, inl, inr, List,
  [], ◌∷◌, take, drop, length,
}
use audio_server.Wav.Bytes.{u16, u32, samples}

pub record Audio : Type 0 where
  pub sample_rate : ℕ
  pub samples : List ℕ

-- `out_of_fuel` is no error of the source.
pub data Error : Type 0 where
  not_riff chunk_size format_chunk not_mono_pcm16 no_samples out_of_fuel : Error

-- The variables of the loop.
pub record Chunks : Type 0 where
  pub format : ℕ
  pub channels : ℕ
  pub bits : ℕ
  pub rate : ℕ
  pub pcm : List ℕ

abbrev pub no_chunks : Chunks
no_chunks = record { format = 0; channels = 0; bits = 0; rate = 0; pcm = [] }

pub data ChunkId : Type 0 where
  fmt_id data_id other_id : ChunkId

unfoldable pub chunk_id : ℕ → ℕ → ℕ → ℕ → ChunkId
chunk_id a b c d =
    if (a == 102) && (b == 109) && (c == 116) && (d == 32)
    then fmt_id
    else if (a == 100) && (b == 97) && (c == 116) && (d == 97)
    then data_id
    else other_id

-- One chunk of a size, at the start of the bytes.
unfoldable pub read_chunk : ChunkId → ℕ → List ℕ → Chunks → Error ⊎ Chunks
read_chunk fmt_id size body w =
    if ltb size 16
    then inl format_chunk
    else inr (record w {
      format = u16 body;
      channels = u16 (drop 2 body);
      rate = u32 (drop 4 body);
      bits = u16 (drop 14 body);
    })
read_chunk data_id size body w = inr (record w { pcm = take size body })
read_chunk other_id size body w = inr w

abbrev pub then_chunks : Error ⊎ Chunks → (Chunks → Error ⊎ Chunks) → Error ⊎ Chunks
then_chunks (inl e) k = inl e
then_chunks (inr w) k = k w

unfoldable pub read_chunks : ℕ → List ℕ → Chunks → Error ⊎ Chunks
unfolding chunk_id read_chunk
read_chunks zero rest w = inl out_of_fuel
read_chunks (suc fuel) (a ∷ b ∷ c ∷ d ∷ e ∷ f ∷ g ∷ h ∷ body) w =
    let size = u32 (e ∷ f ∷ g ∷ h ∷ []) in
    if ltb (length body) size
    then inl chunk_size
    else then_chunks (read_chunk (chunk_id a b c d) size body w)
        (read_chunks fuel (drop (size + size % 2) body))
read_chunks (suc fuel) _ w = inr w

-- The checks after the loop.
unfoldable pub finish : Error ⊎ Chunks → Error ⊎ Audio
finish (inl e) = inl e
finish (inr w) =
    if not (w.format == 1) || not (w.channels == 1) || not (w.bits == 16) || (w.rate == 0)
    then inl not_mono_pcm16
    else if is_empty w.pcm || not (length w.pcm % 2 == 0)
    then inl no_samples
    else inr (record { sample_rate = w.rate; samples = samples w.pcm })

unfoldable pub parse : List ℕ → Error ⊎ Audio
unfolding finish read_chunks
parse (r ∷ i ∷ f ∷ f' ∷ s ∷ t ∷ u ∷ v' ∷ w ∷ a ∷ v ∷ e ∷ rest) =
    if (r == 82)
      && (i == 73)
      && (f == 70)
      && (f' == 70)
      && (w == 87)
      && (a == 65)
      && (v == 86)
      && (e == 69)
    then finish (read_chunks (suc (length rest)) rest no_chunks)
    else inl not_riff
parse _ = inl not_riff
