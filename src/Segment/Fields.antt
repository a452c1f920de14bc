-- ===== src/Segment/Fields.antt =====
-- The words of joined texts in internal/segment/segment.go.
use audio_server.Common.{
  ◌≡◌, inl, inr, refl, sym, ap, ◌∙◌, is_empty, false, List, [], ◌∷◌, ◌++◌, append_assoc, append-nil,
  All, Bool-cases,
}
use audio_server.Segment.Text.{Text, is_space, close, split, fields, join}

split-append : (w a b : Text) → split w (a ++ 32 ∷ b) ≡ split w a ++ split [] b
unfolding split is_space
split-append w [] b = refl
split-append w (c ∷ a) b = elim (Bool-cases (is_space c)) [
  | inl h ↦ rw (h, split-append [] a b) (sym (append_assoc (close w) (split [] a) (split [] b)))
  | inr h ↦ rw h (split-append (w ++ c ∷ []) a b)
]

pub fields-append : (a b : Text) → fields (a ++ 32 ∷ b) ≡ fields a ++ fields b
unfolding fields
fields-append a b = split-append [] a b

-- The words of texts, in order.
unfoldable pub all_fields : List Text → List Text
all_fields [] = []
all_fields (t ∷ ts) = fields t ++ all_fields ts

empty_fields : fields [] ≡ []
unfolding fields split
empty_fields = refl

pub fields-join : (ts : List Text) → fields (join ts) ≡ all_fields ts
unfolding join all_fields
fields-join [] = empty_fields
fields-join (t ∷ []) = sym (append-nil (fields t))
fields-join (t ∷ u ∷ us) =
    fields-append t (join (u ∷ us)) ∙ ap (λ ws. fields t ++ ws) (fields-join (u ∷ us))

pub all_fields-append : (ts us : List Text) → all_fields (ts ++ us) ≡ all_fields ts ++ all_fields us
unfolding all_fields
all_fields-append [] us = refl
all_fields-append (t ∷ ts) us =
    rw (all_fields-append ts us) (sym (append_assoc (fields t) (all_fields ts) (all_fields us)))

-- Characters of a word.
abbrev Unspaced : Text → Type 0
Unspaced = All (λ c. is_space c ≡ false)

-- At least one character, none of them space.
abbrev pub IsWord : Text → Type 0
IsWord w = (is_empty w ≡ false) × Unspaced w

append-Unspaced : (w v : Text) → Unspaced w → Unspaced v → Unspaced (w ++ v)
append-Unspaced [] v h k = k
append-Unspaced (c ∷ w) v h k = (h.0, append-Unspaced w v h.1 k)

pub append-All : (P : Text → Type 0) (ts us : List Text) → All P ts → All P us → All P (ts ++ us)
append-All P [] us h k = k
append-All P (t ∷ ts) us h k = (h.0, append-All P ts us h.1 k)

close-AreWords : (w : Text) → Unspaced w → All IsWord (close w)
close-AreWords [] h = tt
close-AreWords (c ∷ w) h = ((refl, h), tt)

split-AreWords : (w text : Text) → Unspaced w → All IsWord (split w text)
unfolding split
split-AreWords w [] h = close-AreWords w h
split-AreWords w (c ∷ cs) h = elim (Bool-cases (is_space c)) [
  | inl s ↦
      rw s
        (append-All IsWord (close w) (split [] cs) (close-AreWords w h) (split-AreWords [] cs tt))
  | inr s ↦ rw s (split-AreWords (w ++ c ∷ []) cs (append-Unspaced w (c ∷ []) h (s, tt)))
]

pub fields-AreWords : (text : Text) → All IsWord (fields text)
unfolding fields
fields-AreWords text = split-AreWords [] text tt

split-word : (w v : Text) → Unspaced v → split w v ≡ close (w ++ v)
unfolding split
split-word w [] h = ap close (sym (append-nil w))
split-word w (c ∷ v) h =
    rw (h.0) (split-word (w ++ c ∷ []) v h.1 ∙ ap close (append_assoc w (c ∷ []) v))

fields-word : (w : Text) → IsWord w → fields w ≡ w ∷ []
unfolding fields
fields-word [] h = cc
fields-word (c ∷ w) h = split-word [] (c ∷ w) h.1

pub all_fields-words : (ws : List Text) → All IsWord ws → all_fields ws ≡ ws
unfolding all_fields
all_fields-words [] h = refl
all_fields-words (w ∷ ws) h = rw (fields-word w h.0, all_fields-words ws h.1) refl
