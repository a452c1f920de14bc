-- ===== src/Segment/Words.antt =====
-- Pack of internal/segment/segment.go loses no word.
use audio_server.Common.{
  ℕ, zero, suc, ◌+◌, ◌-◌, ◌==◌, ◌<◌, ◌≤◌, ltb, ◌≡◌, inl, inr, refl, sym, ap, ◌∙◌, ◌&&◌, is_empty,
  true, false, arith, List, [], ◌∷◌, ◌++◌, append_assoc, append-nil, take, drop, length, All,
  Bool-cases,
}
use audio_server.Segment.Text.{Text, fields, join}
use audio_server.Segment.Pack.{Progress, flush, cut, add_sentence, pack_from, target_of, pack}
use audio_server.Segment.Fields.{
  all_fields, fields-join, all_fields-append, IsWord, fields-AreWords, all_fields-words,
}

is_empty→nil : (ts : List Text) → is_empty ts ≡ true → ts ≡ []
is_empty→nil [] h = refl
is_empty→nil (t ∷ ts) h = cc

take-drop : (n : ℕ) (ws : List Text) → take n ws ++ drop n ws ≡ ws
take-drop zero ws = refl
take-drop (suc n) [] = refl
take-drop (suc n) (w ∷ ws) = cc (take-drop n ws)

pub take-All : (P : Text → Type 0) (n : ℕ) (ws : List Text) → All P ws → All P (take n ws)
take-All P zero ws h = tt
take-All P (suc n) [] h = tt
take-All P (suc n) (w ∷ ws) h = (h.0, take-All P n ws h.1)

pub drop-All : (P : Text → Type 0) (n : ℕ) (ws : List Text) → All P ws → All P (drop n ws)
drop-All P zero ws h = h
drop-All P (suc n) [] h = tt
drop-All P (suc n) (w ∷ ws) h = drop-All P n ws h.1

pub length-drop : (n : ℕ) (ws : List Text) → length (drop n ws) ≡ length ws - n
length-drop zero ws = omega arith
length-drop (suc n) [] = omega arith
length-drop (suc n) (w ∷ ws) = omega (arith, length-drop n ws)

all_fields-cut :
    (fuel max_words : ℕ) (ws : List Text)
    → 0 < max_words
    → length ws ≤ fuel
    → All IsWord ws
    → all_fields (cut fuel max_words ws) ≡ ws
unfolding cut all_fields
all_fields-cut zero m [] p l h = refl
all_fields-cut zero m (w ∷ ws) p l h = absurd (too_long l)
  where
    too_long : suc (length ws) ≤ 0 → ⊥
    too_long l = omega (arith, l)
all_fields-cut (suc fuel) m [] p l h = refl
all_fields-cut (suc fuel) m (w ∷ ws) p l h =
    rw
      (
        fields-join (take m (w ∷ ws)),
        all_fields-words (take m (w ∷ ws)) (take-All IsWord m (w ∷ ws) h),
        all_fields-cut fuel m (drop m (w ∷ ws)) p (omega (arith, length-drop m (w ∷ ws), l, p))
            (drop-All IsWord m (w ∷ ws) h),
      )
      (take-drop m (w ∷ ws))

-- The words of the chunks and of the sentences that wait.
abbrev contents : Progress → List Text
contents p = all_fields p.chunks ++ all_fields p.cur

contents-flush : (p : Progress) → (contents (flush p) ≡ contents p) × ((flush p).cur ≡ [])
unfolding flush all_fields
contents-flush p = elim (Bool-cases (is_empty p.cur)) [
  | inl h ↦ rw h (refl, is_empty→nil p.cur h)
  | inr h ↦ rw h (
    rw (all_fields-append p.chunks (join p.cur ∷ []), fields-join p.cur)
        (append-nil _ ∙ ap (λ ws. all_fields p.chunks ++ ws) (append-nil (all_fields p.cur))),
    refl,
  )
]

-- A sentence that waits adds its words.
contents-wait :
    (p : Progress) (s : Text) (n : ℕ)
    → contents (record p { cur = p.cur ++ s ∷ []; cur_words = n }) ≡ contents p ++ fields s
unfolding all_fields
contents-wait p s n =
    rw (all_fields-append p.cur (s ∷ []), append-nil (fields s))
      (sym (append_assoc (all_fields p.chunks) (all_fields p.cur) (fields s)))

-- Chunks that close all that waits add their words.
contents-close :
    (p : Progress) (cs : List Text)
    → p.cur ≡ []
    → contents (record p { chunks = p.chunks ++ cs }) ≡ contents p ++ all_fields cs
unfolding all_fields
contents-close p cs e =
    rw (e, all_fields-append p.chunks cs, append-nil (all_fields p.chunks)) (append-nil _)

contents-add_sentence :
    (target max_words : ℕ) (s : Text) (p : Progress)
    → 0 < max_words
    → contents (add_sentence target max_words s (fields s) p) ≡ contents p ++ fields s
unfolding add_sentence
contents-add_sentence target m s p pos = elim (Bool-cases (is_empty (fields s))) [
  | inl h ↦ rw h (rw (is_empty→nil (fields s) h) (sym (append-nil (contents p))))
  | inr h ↦ rw h (elim (Bool-cases (ltb m (length (fields s)))) [
    | inl l ↦ rw l (
        contents-close (flush p) (cut (length (fields s)) m (fields s)) (contents-flush p).1
        ∙ rw
            (
              (contents-flush p).0,
              all_fields-cut (length (fields s)) m (fields s) pos (omega arith) (fields-AreWords s),
            )
            refl)
    | inr l ↦
        rw l
          (elim (Bool-cases (ltb 0 p.cur_words && ltb target (p.cur_words + length (fields s)))) [
            | inl f ↦ rw f (
                contents-wait (flush p) s ((flush p).cur_words + length (fields s))
                ∙ ap (λ ws. ws ++ fields s) (contents-flush p).0)
            | inr f ↦ rw f (contents-wait p s (p.cur_words + length (fields s)))
          ])
  ])
]

contents-pack_from :
    (target max_words : ℕ) (ss : List Text) (p : Progress)
    → 0 < max_words
    → contents (pack_from target max_words ss p) ≡ contents p ++ all_fields ss
unfolding pack_from all_fields
contents-pack_from target m [] p pos = sym (append-nil (contents p))
contents-pack_from target m (s ∷ ss) p pos =
    contents-pack_from target m ss (add_sentence target m s (fields s) p) pos
    ∙ rw (contents-add_sentence target m s p pos)
        (append_assoc (contents p) (fields s) (all_fields ss))

-- If the limit is above 0, the chunks that Pack returns have the words of the sentences, all of them
-- and in their order.
pub all_fields-pack :
    (sentences : List Text) (target_words max_words : ℕ)
    → 0 < max_words
    → all_fields (pack sentences target_words max_words) ≡ all_fields sentences
unfolding pack all_fields
all_fields-pack sentences target m pos = rw (nonzero m pos) (
    closed (flush p) (contents-flush p).1
    ∙ (contents-flush p).0
    ∙ contents-pack_from (target_of target m) m sentences
        (record { chunks = []; cur = []; cur_words = 0 }) pos)
  where
    p : Progress
    p = pack_from (target_of target m) m sentences (record { chunks = []; cur = []; cur_words = 0 })

    nonzero : (m : ℕ) → 0 < m → (m == 0) ≡ false
    nonzero m h = ground (arith, h)

    closed : (q : Progress) → q.cur ≡ [] → all_fields q.chunks ≡ contents q
    closed q e = rw e (sym (append-nil (all_fields q.chunks)))
