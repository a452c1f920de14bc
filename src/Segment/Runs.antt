-- ===== src/Segment/Runs.antt =====
-- Tests of internal/segment/segment.go, on texts of the letters a, b, c, d.
use audio_server.Common.{◌≡◌, refl, true, arith, List, [], ◌∷◌, All}
use audio_server.Segment.Text.{Text, ends_sentence, terminate}
use audio_server.Segment.Pack.{pack}
use audio_server.Segment.Fields.{all_fields}
use audio_server.Segment.Words.{all_fields-pack}
use audio_server.Segment.Caps.{Fits, pack-Fits}
use audio_server.Segment.Endings.{terminate_twice}

-- "a b.", "c" and " a b c d".
abbrev sentences : List Text
sentences =
    (97 ∷ 32 ∷ 98 ∷ 46 ∷ []) ∷ (99 ∷ []) ∷ (32 ∷ 97 ∷ 32 ∷ 98 ∷ 32 ∷ 99 ∷ 32 ∷ 100 ∷ []) ∷ []

-- With a limit of three words: "a b. c", "a b c" and "d".
packed :
    pack sentences 3 3
    ≡ (97 ∷ 32 ∷ 98 ∷ 46 ∷ 32 ∷ 99 ∷ []) ∷ (97 ∷ 32 ∷ 98 ∷ 32 ∷ 99 ∷ []) ∷ (100 ∷ []) ∷ []
unfolding pack audio_server.Segment.Text.is_space
packed = refl

all_fields-pack_example : all_fields (pack sentences 3 3) ≡ all_fields sentences
all_fields-pack_example = all_fields-pack sentences 3 3 (omega arith)

pack-Fits_example : All (Fits 3) (pack sentences 3 3)
unfolding pack audio_server.Segment.Text.is_space
pack-Fits_example = pack-Fits sentences 3 3

terminate_twice_example :
    (ends_sentence (terminate (99 ∷ 32 ∷ [])) ≡ true)
    × (terminate (terminate (99 ∷ 32 ∷ [])) ≡ terminate (99 ∷ 32 ∷ []))
terminate_twice_example = terminate_twice (99 ∷ 32 ∷ [])
