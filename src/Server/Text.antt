-- ===== src/Server/Text.antt =====
-- The texts of internal/server/server.go, by code points, and the functions of Go's package
-- strings that it calls on them. The texts are valid UTF-8.
use audio_server.Common.{ℕ, ◌==◌, ◌&&◌, if◌then◌else◌, is_empty, Bool, true, false, [], ◌∷◌, map}
use audio_server.Segment.Text.{Text, is_space}

-- The tables of Go's package unicode: the lower case of a letter, and simple case folding.
pub record Letters : Type 0 where
  pub lower : ℕ → ℕ
  pub same : ℕ → ℕ → Bool

unfoldable pub text_eq : Text → Text → Bool
text_eq [] [] = true
text_eq (c ∷ cs) (d ∷ ds) = (c == d) && text_eq cs ds
text_eq _ _ = false

unfoldable pub trim_start : Text → Text
trim_start [] = []
trim_start (c ∷ cs) = let rest = trim_start cs in if is_space c then rest else c ∷ cs

unfoldable pub trim_end : Text → Text
trim_end [] = []
trim_end (c ∷ cs) = let rest = trim_end cs in if is_empty rest && is_space c then [] else c ∷ rest

-- strings.TrimSpace.
unfoldable pub trim : Text → Text
unfolding trim_start trim_end
trim t = trim_end (trim_start t)

-- strings.ToLower.
abbrev pub to_lower : Letters → Text → Text
to_lower u t = map u.lower t

-- strings.EqualFold.
unfoldable pub equal_fold : Letters → Text → Text → Bool
equal_fold u [] [] = true
equal_fold u (c ∷ cs) (d ∷ ds) = u.same c d && equal_fold u cs ds
equal_fold u _ _ = false

-- strings.HasPrefix with strings.TrimPrefix: the rest of a text after a prefix that it has.
unfoldable pub after_prefix : Text → Text → Text × Bool
after_prefix [] t = (t, true)
after_prefix (c ∷ cs) [] = ([], false)
after_prefix (c ∷ cs) (d ∷ ds) =
    let rest = after_prefix cs ds in if c == d then rest else (d ∷ ds, false)

-- strings.ReplaceAll(language, "_", "-"), by letters.
abbrev pub dash : ℕ → ℕ
dash c = if c == 95 then 45 else c

unfoldable pub normalize_language : Letters → Text → Text
unfolding trim
normalize_language u language = map dash (to_lower u (trim language))

abbrev pub or_default : Text → Text → Text
or_default default [] = default
or_default default (c ∷ cs) = c ∷ cs

abbrev pub auto : Text
auto = 97 ∷ 117 ∷ 116 ∷ 111 ∷ []

abbrev pub mp3 : Text
mp3 = 109 ∷ 112 ∷ 51 ∷ []

unfoldable pub request_language : Letters → Text → Text
unfolding normalize_language
request_language u language = or_default auto (normalize_language u language)

unfoldable pub normalized_format : Letters → Text → Text
unfolding trim
normalized_format u format = or_default mp3 (to_lower u (trim format))
