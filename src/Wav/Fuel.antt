-- ===== src/Wav/Fuel.antt =====
-- Parse of internal/pcmwav/pcmwav.go reads all its chunks, and what it accepts.
use audio_server.Common.{
  ℕ, zero, suc, ◌+◌, ◌%◌, ◌<◌, ◌≤◌, ltb, ◌≢◌, if_both, ◌⊎◌, inl, inr, arith, List, [], ◌∷◌, drop,
  length,
}
use audio_server.Wav.Bytes.{u32}
use audio_server.Wav.Parse.{
  Audio, Error, chunk_size, format_chunk, not_riff, out_of_fuel, ChunkId, fmt_id, data_id, other_id,
  Chunks, no_chunks, chunk_id, read_chunk, then_chunks, read_chunks, finish, parse,
}

length-drop : (n : ℕ) (xs : List ℕ) → length (drop n xs) ≤ length xs
length-drop zero xs = omega arith
length-drop (suc n) [] = omega arith
length-drop (suc n) (x ∷ xs) = omega (arith, length-drop n xs)

-- Not out of fuel.
abbrev Ends {ℓ} : {A : Type ℓ} → Error ⊎ A → Type ℓ
Ends r = r ≢ inl out_of_fuel

chunk-Ends :
    (id : ChunkId) (size : ℕ) (body : List ℕ) (w : Chunks) (k : Chunks → Error ⊎ Chunks)
    → ((v : Chunks) → Ends (k v))
    → Ends (then_chunks (read_chunk id size body w) k)
unfolding read_chunk
chunk-Ends fmt_id size body w k h =
    if_both (λ r. Ends (then_chunks r k)) (ltb size 16) (inl format_chunk) _ (λ q. cc) (h _)
chunk-Ends data_id size body w k h = h _
chunk-Ends other_id size body w k h = h _

read_chunks-Ends :
    (fuel : ℕ) (rest : List ℕ) (w : Chunks) → length rest < fuel → Ends (read_chunks fuel rest w)
unfolding read_chunks
read_chunks-Ends zero rest w h = omega (arith, h)
read_chunks-Ends (suc fuel) (a ∷ b ∷ c ∷ d ∷ e ∷ f ∷ g ∷ h ∷ body) w l =
    let size = u32 (e ∷ f ∷ g ∷ h ∷ []) in
    if_both Ends (ltb (length body) size) (inl chunk_size) _ (λ q. cc)
      (chunk-Ends (chunk_id a b c d) size body w _ (λ v.
        read_chunks-Ends fuel (drop (size + size % 2) body) v
          (omega (arith, l, length-drop (size + size % 2) body))))
read_chunks-Ends (suc fuel) _ w l = λ q. cc

finish-Ends : (r : Error ⊎ Chunks) → Ends r → Ends (finish r)
unfolding finish
finish-Ends (inl e) h = ground (arith, h)
finish-Ends (inr w) h = ground arith

not_riff-Ends : Ends {A = Audio} (inl not_riff)
not_riff-Ends q = cc

-- Parse reads its chunks to their end or to an error on any bytes: it never runs on.
pub parse-ends : (bytes : List ℕ) → parse bytes ≢ inl out_of_fuel
unfolding parse
parse-ends (r ∷ i ∷ f ∷ f' ∷ s ∷ t ∷ u ∷ v' ∷ w ∷ a ∷ v ∷ e ∷ rest) =
    if_both Ends _ (finish (read_chunks (suc (length rest)) rest no_chunks)) _
      (finish-Ends (read_chunks (suc (length rest)) rest no_chunks)
        (read_chunks-Ends (suc (length rest)) rest no_chunks (omega arith)))
      not_riff-Ends
parse-ends _ = λ q. cc
