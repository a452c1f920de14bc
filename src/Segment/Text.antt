-- ===== src/Segment/Text.antt =====
-- Texts as internal/segment/segment.go handles them, by code points; the texts are valid UTF-8.
use audio_server.Common.{
  ℕ, ◌==◌, leb, ◌&&◌, ◌||◌, if◌then◌else◌, is_empty, Bool, false, List, [], ◌∷◌, ◌++◌, length,
}

abbrev pub Text : Type 0
Text = List ℕ

-- unicode.IsSpace.
unfoldable pub is_space : ℕ → Bool
is_space c =
    (leb 9 c && leb c 13)
    || (c == 32)
    || (c == 133)
    || (c == 160)
    || (c == 5760)
    || (leb 8192 c && leb c 8202)
    || (c == 8232)
    || (c == 8233)
    || (c == 8239)
    || (c == 8287)
    || (c == 12288)

abbrev pub close : Text → List Text
close [] = []
close (c ∷ cs) = (c ∷ cs) ∷ []

-- The words of a text that follows the word read so far.
unfoldable pub split : Text → Text → List Text
split word [] = close word
split word (c ∷ cs) =
    let closed = close word ++ split [] cs in
    let longer = split (word ++ c ∷ []) cs in if is_space c then closed else longer

-- strings.Fields.
unfoldable pub fields : Text → List Text
unfolding split
fields text = split [] text

-- strings.Join with a space.
unfoldable pub join : List Text → Text
join [] = []
join (t ∷ []) = t
join (t ∷ u ∷ us) = t ++ 32 ∷ join (u ∷ us)

-- WordCount.
unfoldable pub word_count : Text → ℕ
unfolding fields
word_count text = length (fields text)

-- The characters that strings.TrimRight takes off: space, tab, carriage return and newline.
abbrev pub in_cutset : ℕ → Bool
in_cutset c = (c == 32) || (c == 9) || (c == 13) || (c == 10)

unfoldable pub trim_right : Text → Text
trim_right [] = []
trim_right (c ∷ cs) =
    let rest = trim_right cs in if is_empty rest && in_cutset c then [] else c ∷ rest

-- The marks . ! ? and their wide forms.
abbrev pub is_terminator : ℕ → Bool
is_terminator c =
    (c == 46) || (c == 33) || (c == 63) || (c == 12290) || (c == 65281) || (c == 65311)

-- Whether the last character is one.
unfoldable pub last_terminates : Text → Bool
last_terminates [] = false
last_terminates (c ∷ []) = is_terminator c
last_terminates (c ∷ d ∷ ds) = last_terminates (d ∷ ds)

unfoldable pub ends_sentence : Text → Bool
unfolding trim_right last_terminates
ends_sentence text = last_terminates (trim_right text)

unfoldable pub terminate : Text → Text
unfolding ends_sentence trim_right
terminate text = if ends_sentence text then text else trim_right text ++ 46 ∷ []
