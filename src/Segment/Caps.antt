-- ===== src/Segment/Caps.antt =====
-- The chunks of Pack in internal/segment/segment.go have at least one word and keep the limit.
use audio_server.Common.{
  ℕ, zero, suc, ◌+◌, ◌==◌, ◌<◌, ◌≤◌, min, ltb, ◌≡◌, inl, inr, refl, sym, ap, ◌∙◌, ◌&&◌, is_empty,
  false, arith, List, [], ◌∷◌, ◌++◌, append-nil, take, drop, length, length-append, All, Bool-cases,
}
use audio_server.Segment.Text.{Text, fields, join, word_count}
use audio_server.Segment.Pack.{Progress, flush, cut, add_sentence, pack_from, target_of, pack}
use audio_server.Segment.Fields.{
  all_fields, fields-join, all_fields-append, append-All, IsWord, fields-AreWords, all_fields-words,
}
use audio_server.Segment.Words.{take-All, drop-All}

-- A chunk that has between one and `m` words.
abbrev pub Fits : ℕ → Text → Type 0
Fits m t = (1 ≤ word_count t) × (word_count t ≤ m)

-- What holds between the rounds of the loop.
record IsCapped (m : ℕ) (p : Progress) : Type 0 where
  chunks : All (Fits m) p.chunks
  counted : p.cur_words ≡ length (all_fields p.cur)
  capped : p.cur_words ≤ m
  started : is_empty p.cur ≡ (p.cur_words == 0)

word_count-join : (ts : List Text) → word_count (join ts) ≡ length (all_fields ts)
unfolding word_count
word_count-join ts = ap length (fields-join ts)

flush-IsCapped : (m : ℕ) (p : Progress) → IsCapped m p → IsCapped m (flush p)
unfolding flush all_fields
flush-IsCapped m p c = elim (Bool-cases (is_empty p.cur)) [
  | inl h ↦ rw h c
  | inr h ↦ rw h (record {
    chunks =
        append-All (Fits m) p.chunks (join p.cur ∷ []) c.chunks
          (rw (word_count-join p.cur) (fits h), tt);
    counted = refl;
    capped = omega arith;
    started = refl;
  })
]
  where
    fits :
        is_empty p.cur ≡ false → (1 ≤ length (all_fields p.cur)) × (length (all_fields p.cur) ≤ m)
    fits h = ground (arith, h, c.counted, c.capped, c.started)

flushed : (p : Progress) → (m : ℕ) → IsCapped m p → (flush p).cur_words ≡ 0
unfolding flush
flushed p m c = ground (arith, c.started)

length-take : (n : ℕ) (ws : List Text) → length (take n ws) ≡ min n (length ws)
length-take zero ws = omega arith
length-take (suc n) [] = omega arith
length-take (suc n) (w ∷ ws) = omega (arith, length-take n ws)

cut-Fits : (fuel m : ℕ) (ws : List Text) → 0 < m → All IsWord ws → All (Fits m) (cut fuel m ws)
unfolding cut
cut-Fits zero m ws p h = tt
cut-Fits (suc fuel) m [] p h = tt
cut-Fits (suc fuel) m (w ∷ ws) p h = (
  rw
      (
        word_count-join (take m (w ∷ ws)),
        all_fields-words (take m (w ∷ ws)) (take-All IsWord m (w ∷ ws) h),
      )
      (omega (arith, length-take m (w ∷ ws), p), omega (arith, length-take m (w ∷ ws), p)),
  cut-Fits fuel m (drop m (w ∷ ws)) p (drop-All IsWord m (w ∷ ws) h),
)

wait-IsCapped :
    (m : ℕ) (p : Progress) (s : Text)
    → IsCapped m p
    → 1 ≤ length (fields s)
    → p.cur_words + length (fields s) ≤ m
    → IsCapped m (record p { cur = p.cur ++ s ∷ []; cur_words = p.cur_words + length (fields s) })
unfolding all_fields
wait-IsCapped m p s c w l = record {
  chunks = c.chunks;
  counted =
      rw (all_fields-append p.cur (s ∷ []), append-nil (fields s))
        (omega (arith, c.counted, length-append (all_fields p.cur) (fields s)));
  capped = l;
  started = not_empty p.cur ∙ sym (positive (p.cur_words + length (fields s)) (omega (arith, w)));
}
  where
    not_empty : (ts : List Text) → is_empty (ts ++ s ∷ []) ≡ false
    not_empty [] = refl
    not_empty (t ∷ ts) = refl

    positive : (n : ℕ) → 1 ≤ n → (n == 0) ≡ false
    positive n h = ground (arith, h)

has_words : (ws : List Text) → is_empty ws ≡ false → 1 ≤ length ws
has_words [] h = absurd (cc h)
has_words (w ∷ ws) h = omega arith

add_sentence-IsCapped :
    (target m : ℕ) (s : Text) (p : Progress)
    → 0 < m
    → target ≤ m
    → IsCapped m p
    → IsCapped m (add_sentence target m s (fields s) p)
unfolding add_sentence
add_sentence-IsCapped target m s p pos le c = elim (Bool-cases (is_empty (fields s))) [
  | inl h ↦ rw h c
  | inr h ↦ rw h (elim (Bool-cases (ltb m (length (fields s)))) [
    | inl l ↦ rw l (
        let f = flush-IsCapped m p c in
        record {
          chunks =
              append-All (Fits m) (flush p).chunks (cut (length (fields s)) m (fields s)) f.chunks
                (cut-Fits (length (fields s)) m (fields s) pos (fields-AreWords s));
          counted = f.counted;
          capped = f.capped;
          started = f.started;
        })
    | inr l ↦
        rw l
          (elim (Bool-cases (ltb 0 p.cur_words && ltb target (p.cur_words + length (fields s)))) [
            | inl f ↦ rw f (
                wait-IsCapped m (flush p) s (flush-IsCapped m p c) (has_words (fields s) h)
                  (ground (arith, l, flushed p m c)))
            | inr f ↦ rw f (
                wait-IsCapped m p s c (has_words (fields s) h) (ground (arith, f, l, le, c.capped)))
          ])
  ])
]

pack_from-IsCapped :
    (target m : ℕ) (ss : List Text) (p : Progress)
    → 0 < m
    → target ≤ m
    → IsCapped m p
    → IsCapped m (pack_from target m ss p)
unfolding pack_from
pack_from-IsCapped target m [] p pos le c = c
pack_from-IsCapped target m (s ∷ ss) p pos le c =
    pack_from-IsCapped target m ss (add_sentence target m s (fields s) p) pos le
      (add_sentence-IsCapped target m s p pos le c)

target_of-le : (target m : ℕ) → target_of target m ≤ m
target_of-le target m = ground arith

-- Each chunk that Pack returns has at least one word and no more words than the limit.
pub pack-Fits :
    (sentences : List Text) (target_words max_words : ℕ)
    → All (Fits max_words) (pack sentences target_words max_words)
unfolding pack all_fields
pack-Fits sentences target m = elim (Bool-cases (m == 0)) [
  | inl h ↦ rw h tt
  | inr h ↦
      rw h
        (flush-IsCapped m p (
          pack_from-IsCapped (target_of target m) m sentences start (ground (arith, h))
            (target_of-le target m) at_start)).chunks
]
  where
    start : Progress
    start = record { chunks = []; cur = []; cur_words = 0 }

    p : Progress
    p = pack_from (target_of target m) m sentences start

    at_start : IsCapped m start
    at_start = record { chunks = tt; counted = refl; capped = omega arith; started = refl }
