-- ===== src/Wav/Bytes.antt =====
-- Little-endian numbers in bytes (encoding/binary), as internal/pcmwav/pcmwav.go uses them. A byte is a number below 256, an
-- int16 the number of its 16 bits.
use audio_server.Common.{
  ℕ, ◌+◌, ◌*◌, ◌/◌, ◌%◌, ◌<◌, ◌≡◌, refl, ap, arith, List, [], ◌∷◌, ◌++◌, length, All,
}

abbrev pub put_u16 : ℕ → List ℕ
put_u16 x = x % 256 ∷ x / 256 % 256 ∷ []

abbrev pub put_u32 : ℕ → List ℕ
put_u32 x = x % 256 ∷ x / 256 % 256 ∷ x / 65536 % 256 ∷ x / 16777216 % 256 ∷ []

-- The number in the first bytes, which the callers have checked to be there.
abbrev pub u16 : List ℕ → ℕ
u16 (a ∷ b ∷ rest) = a + 256 * b
u16 _ = 0

abbrev pub u32 : List ℕ → ℕ
u32 (a ∷ b ∷ c ∷ d ∷ rest) = a + 256 * b + 65536 * c + 16777216 * d
u32 _ = 0

-- binary.Write and binary.Read of a slice of int16.
unfoldable pub put_samples : List ℕ → List ℕ
put_samples [] = []
put_samples (x ∷ xs) = x % 256 ∷ x / 256 % 256 ∷ put_samples xs

unfoldable pub samples : List ℕ → List ℕ
samples (a ∷ b ∷ rest) = (a + 256 * b) ∷ samples rest
samples _ = []

pub u16-put_u16 : (x : ℕ) (rest : List ℕ) → x < 65536 → u16 (put_u16 x ++ rest) ≡ x
u16-put_u16 x rest h = omega (arith, h)

pub u32-put_u32 : (x : ℕ) (rest : List ℕ) → x < 4294967296 → u32 (put_u32 x ++ rest) ≡ x
u32-put_u32 x rest h = omega (arith, h)

pub samples-put_samples : (xs : List ℕ) → All (λ x. x < 65536) xs → samples (put_samples xs) ≡ xs
unfolding samples put_samples
samples-put_samples [] h = refl
samples-put_samples (x ∷ xs) h =
    rw (samples-put_samples xs h.1) (ap (λ y. y ∷ xs) (u16-put_u16 x [] h.0))

pub length-put_samples : (xs : List ℕ) → length (put_samples xs) ≡ length xs * 2
unfolding put_samples
length-put_samples [] = refl
length-put_samples (x ∷ xs) = omega (arith, length-put_samples xs)
