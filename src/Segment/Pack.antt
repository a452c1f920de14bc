-- ===== src/Segment/Pack.antt =====
-- Pack of internal/segment/segment.go. A word limit that is not positive is 0.
use audio_server.Common.{
  ℕ, zero, suc, ◌+◌, ◌==◌, ltb, ◌&&◌, ◌||◌, if◌then◌else◌, is_empty, List, [], ◌∷◌, ◌++◌, take,
  drop, length,
}
use audio_server.Segment.Text.{Text, fields, join}

-- The variables of the loop.
pub record Progress : Type 0 where
  pub chunks : List Text
  pub cur : List Text
  pub cur_words : ℕ

unfoldable pub flush : Progress → Progress
unfolding join
flush p =
    if is_empty p.cur
    then p
    else record { chunks = p.chunks ++ join p.cur ∷ []; cur = []; cur_words = 0 }

-- The cuts of the words of a long sentence, one chunk in a round.
unfoldable pub cut : ℕ → ℕ → List Text → List Text
unfolding join
cut zero max_words words = []
cut (suc fuel) max_words words =
    let rest = cut fuel max_words (drop max_words words) in
    if is_empty words then [] else join (take max_words words) ∷ rest

-- One sentence with its words.
unfoldable pub add_sentence : ℕ → ℕ → Text → List Text → Progress → Progress
unfolding flush cut
add_sentence target_words max_words sentence words p =
    if is_empty words
    then p
    else if ltb max_words (length words)
    then record (flush p) { chunks = (flush p).chunks ++ cut (length words) max_words words }
    else (let q =
          if ltb 0 p.cur_words && ltb target_words (p.cur_words + length words)
          then flush p
          else p in
        record q { cur = q.cur ++ sentence ∷ []; cur_words = q.cur_words + length words })

unfoldable pub pack_from : ℕ → ℕ → List Text → Progress → Progress
unfolding add_sentence fields
pack_from target_words max_words [] p = p
pack_from target_words max_words (s ∷ ss) p =
    pack_from target_words max_words ss (add_sentence target_words max_words s (fields s) p)

abbrev pub target_of : ℕ → ℕ → ℕ
target_of target_words max_words =
    if (target_words == 0) || ltb max_words target_words then max_words else target_words

unfoldable pub pack : List Text → ℕ → ℕ → List Text
unfolding pack_from flush
pack sentences target_words max_words =
    if max_words == 0
    then []
    else (flush (
        pack_from (target_of target_words max_words) max_words sentences
          (record { chunks = []; cur = []; cur_words = 0 }))).chunks
