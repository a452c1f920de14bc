-- ===== src/Segment/Endings.antt =====
-- Terminate of internal/segment/segment.go.
use audio_server.Common.{
  ◌==◌, ◌≡◌, inl, inr, refl, ◌&&◌, ◌||◌, if◌then◌else◌, is_empty, true, [], ◌∷◌, ◌++◌, Bool-cases,
}
use audio_server.Segment.Text.{Text, trim_right, last_terminates, ends_sentence, terminate}

trim_right-period : (t : Text) → trim_right (t ++ 46 ∷ []) ≡ t ++ 46 ∷ []
unfolding trim_right
trim_right-period [] = refl
trim_right-period (c ∷ t) = rw (trim_right-period t) (not_empty t)
  where
    not_empty :
        (t : Text)
        → (if is_empty (t ++ 46 ∷ []) && ((c == 32) || (c == 9) || (c == 13) || (c == 10))
            then []
            else c ∷ t ++ 46 ∷ [])
          ≡ c ∷ t ++ 46 ∷ []
    not_empty [] = refl
    not_empty (d ∷ t) = refl

last_terminates-period : (t : Text) → last_terminates (t ++ 46 ∷ []) ≡ true
unfolding last_terminates
last_terminates-period [] = refl
last_terminates-period (c ∷ []) = refl
last_terminates-period (c ∷ d ∷ t) = last_terminates-period (d ∷ t)

ends_sentence-terminate : (t : Text) → ends_sentence (terminate t) ≡ true
unfolding terminate ends_sentence
ends_sentence-terminate t = elim (Bool-cases (last_terminates (trim_right t))) [
  | inl h ↦ rw h h
  | inr h ↦ rw h (rw (trim_right-period (trim_right t)) (last_terminates-period (trim_right t)))
]

-- What Terminate returns ends a sentence, for any text, and Terminate leaves it as it is.
pub terminate_twice :
    (t : Text) → (ends_sentence (terminate t) ≡ true) × (terminate (terminate t) ≡ terminate t)
unfolding terminate
terminate_twice t = (ends_sentence-terminate t, fixed (terminate t) (ends_sentence-terminate t))
  where
    fixed : (u : Text) → ends_sentence u ≡ true → terminate u ≡ u
    fixed u h = rw h refl
